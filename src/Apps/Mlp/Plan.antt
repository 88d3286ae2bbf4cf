-- ===== src/Apps/Mlp/Plan.antt =====
-- The layers of a case of mlp in sim/gen_apps.py, one launch behind the other.
use mathlib.Core.List.{flatten}
use simtix.Base.{◌<◌, ◌+◌, ◌*◌, ◌/◌, ◌⊎◌, some, lookup, Dict, ℕ, suc, ◌≡◌, List, [], ◌∷◌}
use simtix.Base.Int.{ℤ, ints}
use simtix.Ddr.Case.{Case, Launch}
use simtix.Random.{Rng}
use simtix.Apps.Gen.{draws}
use simtix.Apps.Logic.{Holds, Expects, IsBlock}
use simtix.Apps.Mlp.{padded, pack_rows}
use simtix.Apps.Mlp.Layers.{layer_params, weight_row}
use simtix.Apps.Mlp.Matrix.{All, IsRow, IsMatrix, IsInput, IsWeight, times}
use simtix.Apps.Mlp.Requants.{Each, IsSmall, Requants}
use simtix.Apps.Mlp.Drawn.{PaddedFrom}
use simtix.Apps.Mlp.Started.{ArePacked, layer_entry}

module _ (R : Rng) (batch slot : ℕ) where
  -- A layer in the case c: its inputs x stand at px, k to a row; its weights w are those that the source
  -- draws in the state s, of which the kernel reads the packed words; `vals` are expected from po on.
  pub record IsLayer (c : Case) (px k n act : ℕ) (s : R.State) (w : List (List ℤ)) (p po : ℕ)
      (vals : List ℤ) : Type 0 where
    pub pw : ℕ
    pub words : List ℕ
    pub drawn : w ≡ (draws k (weight_row R n 0 (padded n)) s).0
    pub matrix : IsMatrix IsWeight k (padded n) w
    pub padding : All (PaddedFrom 0 n) w
    pub packs : ArePacked w k (padded n) words
    pub held : Holds c pw (ints words)
    pub block : IsBlock c p (layer_params px pw po k (padded n) act)
    pub expects : Expects c po vals

  -- The launches of the layers numbered from li. The last one gives the sums; another gives rows of
  -- inputs for the layer behind it, each a requantised sum. No sum needs more than 32 bits.
  pub data LayersOf (c : Case)
      : ℕ → ℕ → ℕ → List (List ℤ) → R.State → List ℕ → List Launch → Type 0 where
    no_layers : {li px k : ℕ} {x : List (List ℤ)} {s : R.State} → LayersOf c li px k x s [] []
    last_layer :
        {li px k : ℕ} {x : List (List ℤ)} {s : R.State} (n p po : ℕ) (w : List (List ℤ))
        → IsLayer c px k n 0 s w p po (flatten (times x w (padded n)))
        → All (IsRow IsSmall (padded n)) (times x w (padded n))
        → LayersOf c li px k x s (n ∷ []) (layer_entry batch slot li (padded n) p ∷ [])
    hidden_layer :
        {li px k : ℕ} {x : List (List ℤ)} {s : R.State} (n m p po : ℕ) (dims : List ℕ)
        (ls : List Launch) (w y : List (List ℤ))
        → IsLayer c px k n 1 s w p po (ints (pack_rows y))
        → All (IsRow IsSmall (padded n)) (times x w (padded n))
        → Each (Each Requants) (times x w (padded n)) y
        → IsMatrix IsInput batch (padded n) y
        → LayersOf c
            (suc li)
            po
            (padded n)
            y
            (draws k (weight_row R n 0 (padded n)) s).1
            (m ∷ dims)
            ls
        → LayersOf c li px k x s (n ∷ m ∷ dims) (layer_entry batch slot li (padded n) p ∷ ls)

  -- The address of an output of a layer.
  abbrev IsOutput :
      {c : Case} {li px k : ℕ} {x : List (List ℤ)} {s : R.State} {dims : List ℕ} {ls : List Launch}
      → ℕ
      → LayersOf c li px k x s dims ls
      → Type 0
  IsOutput a no_layers = ⊥
  IsOutput a (last_layer n p po w l f) = (i : ℕ) × (i < batch * padded n) × (a ≡ po + 4 * i)
  IsOutput a (hidden_layer n m p po dims ls w y l f e h rest) =
      ((i : ℕ) × (i < batch * padded n / 4) × (a ≡ po + 4 * i)) ⊎ IsOutput a rest

  -- The layers, outputs of which are all that is expected but for the words of `d`.
  abbrev pub Layers :
      (c : Case) (d : Dict ℕ) → ℕ → ℕ → ℕ → List (List ℤ) → R.State → List ℕ → List Launch → Type 0
  Layers c d li px k x s dims ls =
      (plan : LayersOf c li px k x s dims ls) × ((a v : ℕ)
        → lookup a c.gold ≡ some v
        → (lookup a d ≡ some v) ⊎ IsOutput a plan)
