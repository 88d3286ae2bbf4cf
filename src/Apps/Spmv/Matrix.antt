-- ===== src/Apps/Spmv/Matrix.antt =====
-- The matrix that the loop over the rows builds.
use mathlib.Core.Path.{subst}
use native.Mathlib.Decide.{dec_lt}
use simtix.Base.{
  ℕ, zero, suc, ◌+◌, ◌≤◌, ◌<◌, ◌≡◌, refl, sym, ◌∙◌, arith, List, [], ◌∷◌, ◌++◌, length,
  length-append, get_or, ◌∈◌, ◌⊎◌, inl, inr,
}
use simtix.Base.Sort.{sorted, length-sorted, mem-sorted}
use simtix.Apps.Inputs.{AllUnit}
use simtix.Apps.Spmv.Rows.{Csr}
use simtix.Apps.Spmv.{add_row}

-- A matrix of `rows` rows over `cols` columns: the row pointers rise from 0 to the number of entries,
-- every entry has a column and a value, and the values lie between -1.0 and 1.0.
pub record IsCsr (rows cols : ℕ) (a : Csr) : Type 0 where
  pub pointers : length a.rowptr ≡ rows + 1
  pub first : get_or a.rowptr 0 0 ≡ 0
  pub last : get_or a.rowptr rows 0 ≡ length a.col
  pub rising : (r : ℕ) → r < rows → get_or a.rowptr r 0 ≤ get_or a.rowptr (r + 1) 0
  pub values : length a.val ≡ length a.col
  pub columns : (c : ℕ) → c ∈ a.col → c < cols
  pub unit : AllUnit a.val

get_or-append_left : (l : List ℕ) (v i : ℕ) → i < length l → get_or (l ++ v ∷ []) i 0 ≡ get_or l i 0
get_or-append_left [] v i h = elim h [ ]
get_or-append_left (x ∷ l) v zero h = refl
get_or-append_left (x ∷ l) v (suc i) h = get_or-append_left l v i (omega arith)

get_or-append_last : (l : List ℕ) (v : ℕ) → get_or (l ++ v ∷ []) (length l) 0 ≡ v
get_or-append_last [] v = refl
get_or-append_last (x ∷ l) v = get_or-append_last l v

mem-append : (c : ℕ) (l k : List ℕ) → c ∈ (l ++ k) → (c ∈ l) ⊎ (c ∈ k)
mem-append c [] k m = inr m
mem-append c (x ∷ l) k (inl e) = inl (inl e)
mem-append c (x ∷ l) k (inr m) = elim (mem-append c l k m) [ inl a ↦ inl (inr a) | inr b ↦ inr b ]

append-AllUnit : (l k : List ℕ) → AllUnit l → AllUnit k → AllUnit (l ++ k)
append-AllUnit [] k hl hk i w e = hk i w e
append-AllUnit (x ∷ l) k hl hk zero w e = hl 0 w e
append-AllUnit (x ∷ l) k hl hk (suc i) w e = append-AllUnit l k (λ j v f. hl (suc j) v f) hk i w e

-- A further row, of columns in range and as many values, keeps the matrix well formed.
pub add_row-IsCsr :
    (rows cols : ℕ) (a : Csr) (picks vals : List ℕ)
    → IsCsr rows cols a
    → length picks ≡ length vals
    → ((c : ℕ) → c ∈ picks → c < cols)
    → AllUnit vals
    → IsCsr (rows + 1) cols (add_row a picks vals)
add_row-IsCsr rows cols a picks vals p len inside unit = record {
  pointers = omega (arith, length-append a.rowptr (past ∷ []), p.pointers);
  first = get_or-append_left a.rowptr past 0 (omega (arith, p.pointers)) ∙ p.first;
  last = at_last;
  rising = λ r lt. elim (dec_lt r rows) [
    | yes old ↦ omega (
      arith,
      p.rising r old,
      get_or-append_left a.rowptr past r (omega (arith, p.pointers)),
      get_or-append_left a.rowptr past (r + 1) (omega (arith, p.pointers)),
    )
    | no new ↦
        let e : r ≡ rows = omega arith in
        subst (λ i. get_or (a.rowptr ++ past ∷ []) i 0 ≤ get_or (a.rowptr ++ past ∷ []) (i + 1) 0)
          (sym e)
          (omega (
            arith,
            at_last,
            get_or-append_left a.rowptr past rows (omega (arith, p.pointers)),
            p.last,
            length-append a.col (sorted picks),
          ))
  ];
  values = omega (
    arith,
    length-append a.val vals,
    length-append a.col (sorted picks),
    length-sorted picks,
    p.values,
  );
  columns = λ c m. elim (mem-append c a.col (sorted picks) m) [
    | inl old ↦ p.columns c old
    | inr new ↦ inside c (mem-sorted c picks new)
  ];
  unit = append-AllUnit a.val vals p.unit unit;
}
  where
    past : ℕ
    past = length (a.col ++ sorted picks)

    at_last : get_or (a.rowptr ++ past ∷ []) (rows + 1) 0 ≡ past
    at_last =
        subst (λ i. get_or (a.rowptr ++ past ∷ []) i 0 ≡ past) p.pointers
          (get_or-append_last a.rowptr past)
