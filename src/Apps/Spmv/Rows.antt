-- ===== src/Apps/Spmv/Rows.antt =====
-- The rows of the sparse product of sim/gen_apps.py (spmv): a sum over the entries of each row.
use simtix.Base.{ℕ, ◌+◌, ◌-◌, List, [], ◌∷◌, Option, some, get_elem?, range_from}
use simtix.Base.Partial.{◌>>=◌}
use simtix.Fp.Accumulate.{accumulate}
use simtix.Apps.Gen.{traverse}

-- rowptr, col and val: the entries of row r are those from rowptr[r] to rowptr[r + 1].
pub record Csr : Type 0 where
  pub rowptr : List ℕ
  pub col : List ℕ
  pub val : List ℕ

-- `val[j], x[col[j]]`
unfoldable pub gather : Csr → List ℕ → ℕ → Option (ℕ × ℕ)
gather a x j = do v ← get_elem? a.val j; c ← get_elem? a.col j; w ← get_elem? x c; some (v, w)

unfoldable pub row_sum : Csr → List ℕ → ℕ → Option ℕ
row_sum a x r = do
  first ← get_elem? a.rowptr r
  past ← get_elem? a.rowptr (r + 1)
  accumulate (gather a x) (range_from first (past - first)) 0

unfoldable pub row_sums : Csr → List ℕ → ℕ → Option (List ℕ)
row_sums a x rows = traverse (row_sum a x) (range_from 0 rows)

-- `l or [0]`
abbrev pub or_zero : List ℕ → List ℕ
or_zero [] = 0 ∷ []
or_zero (v ∷ l) = v ∷ l
