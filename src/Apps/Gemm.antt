-- ===== src/Apps/Gemm.antt =====
-- The matrix product of sim/gen_apps.py (gemm), with one thread per entry, or per block of 4 x 4.
pub mod Result
use Prim.Native.String.{String}
use simtix.Base.{
  ℕ, ◌+◌, ◌-◌, ◌*◌, ◌/◌, ◌%◌, List, [], ◌∷◌, Option, none, some, Bool, ◌&&◌, ◌==◌, if◌then◌else◌,
  get_elem?, range_from,
}
use simtix.Base.Int.{ℤ, pos, sub_ℕ, ints}
use simtix.Base.Pow.{bit_length}
use simtix.Kernels.{Kernel}
use simtix.Ddr.Case.{Case, tag, new_case}
use simtix.Random.{Rng, rand_f32}
use simtix.Fp.Accumulate.{accumulate}
use simtix.Apps.Gen.{
  Config, Gen, ◌>>=◌, ◌>>◌, lift, assert, draw, draws, alloc_list, alloc_zeros, alloc_words, launch,
  expect, build,
}
use simtix.Apps.Loops.{rows}

-- `a[r * k + kk], b[kk * n + col]`
unfoldable pub factors : List ℕ → List ℕ → ℕ → ℕ → ℕ → ℕ → ℕ → Option (ℕ × ℕ)
factors a b n k r col kk = elim (get_elem? a (r * k + kk)) [
  | none ↦ none
  | some x ↦ elim (get_elem? b (kk * n + col)) [ none ↦ none | some y ↦ some (x, y) ]
]

-- The entry of row r and column col, and all of them in rows.
unfoldable pub entry : List ℕ → List ℕ → ℕ → ℕ → ℕ → ℕ → Option ℕ
entry a b n k r col = accumulate (factors a b n k r col) (range_from 0 k) 0

unfoldable pub product : List ℕ → List ℕ → ℕ → ℕ → ℕ → Option (List ℕ)
product a b m n k = rows (entry a b n k) n 0 m

-- `n.bit_length() - 1`
abbrev log_width : ℕ → ℤ
log_width n = sub_ℕ (bit_length n) 1

abbrev pub gemm_params : ℕ → ℕ → ℕ → ℕ → ℕ → List ℤ
gemm_params n k pa pb pc = pos pa ∷ pos pb ∷ pos pc ∷ pos k ∷ log_width n ∷ []

module _ (R : Rng) (cfg : Config) where
  unfoldable pub gemm_launch : ℕ → ℕ → ℕ → Bool → ℕ → ℕ → ℕ → Gen R.State (Unit {0})
  gemm_launch m n k blocked pa pb pc =
      if blocked
      then assert (m % 4 == 0 && n % (4 * cfg.lanes) == 0)
        >> launch cfg (tag "gemm") Kernel.gemm_rb (gemm_params n k pa pb pc) (m * n / 16) 0
      else launch cfg (tag "gemm") Kernel.gemm (gemm_params n k pa pb pc) (m * n) 0

  unfoldable pub gemm_body : ℕ → ℕ → ℕ → Bool → Gen R.State (Unit {0})
  gemm_body m n k blocked = do
    a ← draw (draws (m * k) (rand_f32 R))
    b ← draw (draws (k * n) (rand_f32 R))
    pa ← alloc_list a (m * k)
    pb ← alloc_list b (k * n)
    pc ← alloc_zeros (m * n)
    gemm_launch m n k blocked pa pb pc
    out ← lift (product a b m n k)
    expect pc (ints out)

  unfoldable pub gemm : ℕ → ℕ → ℕ → Bool → R.State → Option (Case × R.State)
  unfolding gemm_body
  gemm m n k blocked =
      build R (gemm_body m n k blocked)
        (new_case (if blocked then "gemmrb" else "gemm") (m ∷ n ∷ k ∷ []))
