-- ===== src/Apps/Mlp/Layers.antt =====
-- The INT8 multilayer perceptron test of sim/gen_apps.py (mlp): a launch for each layer, the outputs
-- of a layer the inputs of the next.
use mathlib.Core.List.{flatten}
use simtix.Base.{
  ℕ, zero, suc, ◌+◌, ◌-◌, ◌*◌, ◌/◌, List, [], ◌∷◌, ◌++◌, Bool, Option, none, ltb, ◌==◌,
  if◌then◌else◌, length,
}
use simtix.Base.Int.{ℤ, pos, ◌-ℤ◌, ints}
use simtix.Base.Pow.{bit_length}
use simtix.Kernels.{Kernel}
use simtix.Ddr.Case.{Case, numbered, new_case}
use simtix.Random.{Rng}
use simtix.Apps.Gen.{
  Config, Gen, ◌>>=◌, ◌>>◌, pure, lift, draw, draws, alloc_list, alloc_zeros, launch, expect, build,
}
use simtix.Apps.Loops.{rows}
use simtix.Apps.Mlp.{scale, zp, padded, packed, products, requant_rows, pack_rows}

-- `[px, pw, po, k // 4, npad.bit_length() - 1, scale, zp, 0 if last else 1]`
abbrev pub layer_params : ℕ → ℕ → ℕ → ℕ → ℕ → ℕ → List ℤ
layer_params px pw po k npad act =
    ints (px ∷ pw ∷ po ∷ (k / 4) ∷ (bit_length npad - 1) ∷ scale ∷ zp ∷ act ∷ [])

module _ (R : Rng) where
  unfoldable pub inputs : ℕ → R.State → List ℤ × R.State
  inputs k s = let (vals, s') = draws k (R.randrange 128) s in (ints vals, s')

  unfoldable pub weight : ℕ → ℕ → R.State → ℤ × R.State
  weight n col s =
      if ltb col n then (let (a, t) = R.randrange 128 s in (pos a -ℤ pos 64, t)) else (pos 0, s)

  -- A row of weights: `rng.randrange(-64, 64) if col < n else 0`
  unfoldable pub weight_row : ℕ → ℕ → ℕ → R.State → List ℤ × R.State
  unfolding weight
  weight_row n col zero s = ([], s)
  weight_row n col (suc m) s =
      let (v, s') = weight n col s in let (row, s'') = weight_row n (suc col) m s' in (v ∷ row, s'')

  module _ (cfg : Config) (batch : ℕ) where
    -- The loop's body up to the launch: the weights that are drawn, and where the outputs go.
    unfoldable pub layer_launch : ℕ → ℕ → ℕ → ℕ → Bool → Gen R.State (List (List ℤ) × ℕ)
    unfolding packed weight_row padded
    layer_launch li px k n last = do
      let npad = padded n
      w ← draw (draws k (weight_row n 0 npad))
      wp ← lift (rows (packed w) npad 0 (k / 4))
      pw ← alloc_list wp (length wp)
      po ← alloc_zeros (if last then batch * npad else batch * npad / 4)
      launch cfg (numbered "layer" li) Kernel.mlp
          (layer_params px pw po k npad (if last then 0 else 1)) (batch * npad) 0
      pure (w, po)

  module _ (cfg : Config) (batch count : ℕ) where
    -- The loop over the layers: the inputs, their address and their width, and the layer's number.
    unfoldable pub layers : ℕ → ℕ → ℕ → List (List ℤ) → List ℕ → Gen R.State (Unit {0})
    unfolding layer_launch products requant_rows padded
    layers li px k x [] = pure tt
    layers li px k x (n ∷ dims) = do
      let npad = padded n
      let last = li + 2 == count
      (w, po) ← layer_launch cfg batch li px k n last
      acc ← lift (products x w k batch npad)
      x' ← if last then pure x else lift (requant_rows acc)
      expect po (if last then flatten acc else ints (pack_rows x'))
      layers (suc li) po npad x' dims

    unfoldable pub mlp_body : List ℕ → Gen R.State (Unit {0})
    unfolding layers inputs
    mlp_body [] = lift none
    mlp_body (k ∷ dims) = do
      x ← draw (draws batch (inputs k))
      px ← alloc_list (pack_rows x) (batch * k / 4)
      layers 0 px k x dims

  unfoldable pub mlp : Config → ℕ → List ℕ → R.State → Option (Case × R.State)
  unfolding mlp_body
  mlp cfg batch dims =
      build R (mlp_body cfg batch (length dims) dims) (new_case "mlp" (dims ++ batch ∷ []))
