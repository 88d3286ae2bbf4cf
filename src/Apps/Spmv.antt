-- ===== src/Apps/Spmv.antt =====
-- The product of a sparse matrix and a vector in sim/gen_apps.py (spmv).
pub mod Rows
pub mod Matrix
pub mod Sums
pub mod Result
use Prim.Native.String.{String}
use simtix.Base.{
  ℕ, zero, suc, ◌+◌, List, [], ◌∷◌, ◌++◌, Option, none, some, Bool, if◌then◌else◌, length, ltb,
}
use simtix.Base.Int.{ints}
use simtix.Base.Sort.{sorted}
use simtix.Kernels.{Kernel}
use simtix.Ddr.Case.{Case, tag, new_case}
use simtix.Random.{Rng, rand_f32}
use simtix.Apps.Spmv.Rows.{Csr, row_sums, or_zero}
use simtix.Apps.Gen.{
  Config, Gen, ◌>>=◌, ◌>>◌, pure, lift, draw, draws, alloc_list, alloc_zeros, alloc_words, launch,
  expect, build, randint, randrange, sample,
}

abbrev pub spmv_kernel : Bool → Kernel
spmv_kernel zba = if zba then Kernel.spmv_z else Kernel.spmv

-- `max(len(col), 1)`
abbrev pub nnz : Csr → ℕ
nnz a = if ltb 1 (length a.col) then length a.col else 1

-- `col += sorted(...); val += [...]; rowptr.append(len(col))`
abbrev pub add_row : Csr → List ℕ → List ℕ → Csr
add_row a picks vals = record {
  rowptr = a.rowptr ++ length (a.col ++ sorted picks) ∷ [];
  col = a.col ++ sorted picks;
  val = a.val ++ vals;
}

module _ (R : Rng) (cfg : Config) where
  -- The loop over the rows.
  unfoldable pub draw_rows : ℕ → ℕ → ℕ → Csr → Gen R.State Csr
  draw_rows cols maxnnz zero a = pure a
  draw_rows cols maxnnz (suc rows) a = randint R maxnnz >>= λ nz. sample R cols nz >>= λ picks.
      draw (draws nz (rand_f32 R)) >>= λ vals. draw_rows cols maxnnz rows (add_row a picks vals)

  unfoldable pub spmv_body : ℕ → ℕ → ℕ → Bool → Gen R.State (Unit {0})
  unfolding draw_rows
  spmv_body rows cols maxnnz zba = do
    a ← draw_rows cols maxnnz rows (record { rowptr = 0 ∷ []; col = []; val = [] })
    x ← draw (draws cols (rand_f32 R))
    prp ← alloc_list a.rowptr (rows + 1)
    pcol ← alloc_list (or_zero a.col) (nnz a)
    pval ← alloc_list (or_zero a.val) (nnz a)
    px ← alloc_list x cols
    py ← alloc_zeros rows
    launch cfg (tag "spmv") (spmv_kernel zba) (ints (prp ∷ pcol ∷ pval ∷ px ∷ py ∷ [])) rows 0
    y ← lift (row_sums a x rows)
    expect py (ints y)

  unfoldable pub spmv : ℕ → ℕ → ℕ → Bool → R.State → Option (Case × R.State)
  unfolding spmv_body
  spmv rows cols maxnnz zba =
      build R (spmv_body rows cols maxnnz zba)
        (new_case (if zba then "spmvz" else "spmv") (rows ∷ cols ∷ []))
