-- ===== src/Apps/Spmv/Sums.antt =====
-- The sums of the rows in spmv of sim/gen_apps.py.
use mathlib.Core.Option.{some-injective}
use simtix.Base.{
  ℕ, zero, suc, ◌+◌, ◌-◌, ◌≤◌, ◌<◌, ◌≡◌, refl, sym, ap, arith, List, [], ◌∷◌, some, ◌∈◌, inl, inr,
  length, get_elem?, get_elem?_of_lt, get_or, get_elem?-eq-get_or, range_from,
}
use simtix.Fp.Accumulate.{AreUnit, Accumulates, accumulate_total}
use simtix.Apps.Inputs.{AllUnit}
use simtix.Apps.Loops.{Collects, traverse-Collects, mem-range_from}
use simtix.Apps.Spmv.Rows.{Csr, gather, row_sum, row_sums}
use simtix.Apps.Spmv.Matrix.{IsCsr}

mem-get_elem? : (l : List ℕ) (i c : ℕ) → get_elem? l i ≡ some c → c ∈ l
mem-get_elem? [] i c e = cc
mem-get_elem? (x ∷ l) zero c e = inl (sym (some-injective x c e))
mem-get_elem? (x ∷ l) (suc i) c e = inr (mem-get_elem? l i c e)

module _ (rows cols : ℕ) (a : Csr) (x : List ℕ) (p : IsCsr rows cols a) (lx : length x ≡ cols)
    (ux : AllUnit x) where
  pointer-le : (left r : ℕ) → r + left ≡ rows → get_or a.rowptr r 0 ≤ length a.col
  pointer-le zero r e = omega (arith, ap (λ (i : ℕ). get_or a.rowptr i 0) (same r e), p.last)
    where
      same : (r : ℕ) → r + 0 ≡ rows → r ≡ rows
      same r e = omega arith
  pointer-le (suc left) r e =
      omega (arith, p.rising r (omega arith), pointer-le left (r + 1) (omega arith))

  gather-AreUnit : (j : ℕ) → j < length a.col → AreUnit (gather a x j)
  unfolding gather
  gather-AreUnit j h =
      let (v, ev) = get_elem?_of_lt a.val j (omega (arith, p.values)) in
      let (c, ec) = get_elem?_of_lt a.col j h in
      let (w, ew) = get_elem?_of_lt x c (omega (arith, p.columns c (mem-get_elem? a.col j c ec))) in
      record {
        first = v;
        second = w;
        read = rw (ev, ec, ew) refl;
        first-le = p.unit j v ev;
        second-le = ux c w ew;
      }

  -- The entries of row r.
  abbrev entries : ℕ → List ℕ
  entries r = range_from (get_or a.rowptr r 0) (get_or a.rowptr (r + 1) 0 - get_or a.rowptr r 0)

  row_sum-Accumulates :
      (r : ℕ)
      → r < rows
      → (w : ℕ) × (row_sum a x r ≡ some w) × Accumulates (gather a x) (entries r) 0 w
  unfolding row_sum
  row_sum-Accumulates r h =
      let (w, e, le, steps) =
        accumulate_total (gather a x) (entries r) 0 (λ j m. gather-AreUnit j (within j m))
          (omega arith) in
      (
        w,
        rw
            (
              get_elem?-eq-get_or a.rowptr r 0 (omega (arith, p.pointers)),
              get_elem?-eq-get_or a.rowptr (r + 1) 0 (omega (arith, p.pointers)),
            )
            e,
        steps,
      )
    where
      within : (j : ℕ) → j ∈ entries r → j < length a.col
      within j m = omega (
        arith,
        mem-range_from j _ _ m,
        p.rising r h,
        pointer-le (rows - (r + 1)) (r + 1) (omega arith),
      )

  pub row_sums-Collects :
      Collects (λ r w. Accumulates (gather a x) (entries r) 0 w) 0 rows (row_sums a x rows)
  unfolding row_sums
  row_sums-Collects =
      traverse-Collects (row_sum a x) _ 0 rows λ r h. row_sum-Accumulates (0 + r) (omega arith)
