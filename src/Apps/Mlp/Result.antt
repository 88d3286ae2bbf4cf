-- ===== src/Apps/Mlp/Result.antt =====
-- What the case of mlp in sim/gen_apps.py holds.
use mathlib.Core.Path.{subst, subst₂}
use simtix.Base.{
  ℕ, suc, ◌*◌, ◌/◌, ◌%◌, ◌^◌, ◌≤◌, ◌≡◌, sym, ap, ◌∙◌, arith, List, [], ◌∷◌, ◌++◌, some, length,
}
use simtix.Base.Int.{ℤ, ints}
use simtix.Kernels.{Kernel, slot_of}
use simtix.Ddr.Case.{Case, Launch, new_case}
use simtix.Random.{Rng, IsRandom}
use simtix.Apps.Gen.{Config, draw, draws}
use simtix.Apps.Logic.{
  Holds, IsValid, Holds-Grows, Ensures-bind, Ensures-weaken, alloc_words-Ensures, new_case-IsValid,
  length-ints, build-Ensures,
}
use simtix.Apps.Mlp.{pack_rows}
use simtix.Apps.Mlp.Layers.{mlp_body, mlp, inputs}
use simtix.Apps.Mlp.Matrix.{All, IsMatrix, IsInput}
use simtix.Apps.Mlp.Packed.{length-pack_rows}
use simtix.Apps.Mlp.Drawn.{inputs-IsMatrix}
use simtix.Apps.Mlp.Plan.{Layers}
use simtix.Apps.Mlp.Layered.{layers-Ensures}

-- A case that runs the layers over the inputs x.
pub record IsMlp (R : Rng) (batch slot : ℕ) (c : Case) (k : ℕ) (x : List (List ℤ)) (s : R.State)
    (dims : List ℕ) : Type 0 where
  pub px : ℕ
  pub valid : IsValid c
  pub in_range : IsMatrix IsInput batch k x
  pub held : Holds c px (ints (pack_rows x))
  pub plan : Layers R batch slot c [] 0 px k x s dims c.launches

-- For every source, a number k of inputs that is a multiple of four and any layers, none wider than
-- 2^18, `mlp` gives a case, and no sum leaves 32 bits. It is well formed and holds the inputs drawn,
-- packed. Each layer has one launch, on the address where the layer before is expected; its weights are
-- those drawn, from -64 to 63 and 0 in the padding, and every packed word unpacks to four of a column.
-- Behind a hidden layer the requantised sums of the matrix product are expected, packed, and they are
-- what the next layer multiplies; behind the last one the sums themselves. No other word is expected. The kernel has a slot.
pub mlp-IsMlp :
    (R : Rng) (cfg : Config) (batch k slot : ℕ) (dims : List ℕ) (s : R.State)
    → IsRandom R
    → slot_of cfg.slots Kernel.mlp ≡ some slot
    → k % 4 ≡ 0
    → k ≤ 2 ^ 18
    → All (λ n. n ≤ 2 ^ 18) dims
    → (c : Case) × (s' : R.State) × (mlp R cfg batch (k ∷ dims) s ≡ some (c, s'))
      × IsMlp R batch slot c k (draws batch (inputs R k) s).0 (draws batch (inputs R k) s).1 dims
unfolding mlp mlp_body draw
mlp-IsMlp R cfg batch k slot dims s law found four le small =
    build-Ensures R {P = λ _ r. IsMlp R batch slot r.case k x next dims}
      (mlp_body R cfg batch (length (k ∷ dims)) (k ∷ dims)) (new_case _ _) s
      (Ensures-bind
        (alloc_words-Ensures (batch * k / 4) (some (ints (pack_rows x))) _ (new_case-IsValid _ _)
          (length-ints (pack_rows x) ∙ length-pack_rows x batch k hx four))
        λ px r1 A.
          Ensures-weaken
            (layers-Ensures R law cfg batch slot (suc (length dims)) found 0 px k x dims r1
              (omega arith) le hx small A.valid)
            λ _ r2 T. record {
              px = px;
              valid = T.valid;
              in_range = hx;
              held = Holds-Grows px (ints (pack_rows x)) A.holds T.grows;
              plan =
                  subst (λ d. Layers R batch slot r2.case d 0 px k x next dims r2.case.launches)
                    A.same_gold
                    (subst₂ (λ t l. Layers R batch slot r2.case r1.case.gold 0 px k x t dims l)
                      A.same_rng
                      (sym (T.listed ∙ ap (λ (l : List Launch). l ++ T.launched) A.same_launches))
                      T.plan);
            })
  where
    x : List (List ℤ)
    x = (draws batch (inputs R k) s).0

    next : R.State
    next = (draws batch (inputs R k) s).1

    hx : IsMatrix IsInput batch k x
    hx = inputs-IsMatrix R law batch k s
