-- ===== src/Apps/Graph/Compressed.antt =====
-- The compressed rows give back the neighbours.
use mathlib.Core.List.{append_assoc, append-nil}
use simtix.Base.{
  ℕ, zero, suc, ◌+◌, ◌-◌, ◌<◌, ◌≡◌, refl, sym, ap, ◌∙◌, arith, List, [], ◌∷◌, ◌++◌, some, get_elem?,
  get_elem?-append_left, get_elem?-append_right, length, length-append, take, drop,
}
use simtix.Base.Sort.{sorted}
use simtix.Apps.Graph.{csr, neighbours}
use simtix.Apps.Graph.Edges.{set_of}

take-append : (xs ys : List ℕ) → take (length xs) (xs ++ ys) ≡ xs
take-append [] ys = refl
take-append (x ∷ xs) ys = ap (λ (l : List ℕ). x ∷ l) (take-append xs ys)

drop-append : (xs ys : List ℕ) → drop (length xs) (xs ++ ys) ≡ ys
drop-append [] ys = refl
drop-append (x ∷ xs) ys = drop-append xs ys

-- The rest of the loop, after p vertices.
record IsCompressed (p : ℕ) (rowptr col : List ℕ) (adj : List (List ℕ)) (rowptr' col' : List ℕ)
    : Type 0 where
  pub size : length rowptr' ≡ length rowptr + length adj
  pub kept : (i : ℕ) → i < length rowptr → get_elem? rowptr' i ≡ get_elem? rowptr i
  pub more : List ℕ
  pub extended : col' ≡ col ++ more
  pub each :
      (j : ℕ) → j < length adj → neighbours rowptr' col' (p + j) ≡ some (sorted (set_of adj j))

first_row :
    (p : ℕ) (rowptr' col' col row more : List ℕ)
    → get_elem? rowptr' p ≡ some (length col)
    → get_elem? rowptr' (p + 1) ≡ some (length (col ++ row))
    → col' ≡ (col ++ row) ++ more
    → neighbours rowptr' col' p ≡ some row
unfolding neighbours
first_row p rowptr' col' col row more e f g =
    let len : length (col ++ row) - length col ≡ length row =
      omega (arith, length-append col row) in
    let whole = g ∙ append_assoc col row more in
    rw (e, neighbours)
      (rw (f)
        (rw (len, whole) (rw (drop-append col (row ++ more)) (rw (take-append row more) refl))))

each_cons :
    (p : ℕ) (rowptr col ns : List ℕ) (adj : List (List ℕ))
    → neighbours rowptr col p ≡ some (sorted ns)
    → ((j : ℕ) → j < length adj → neighbours rowptr col (suc p + j) ≡ some (sorted (set_of adj j)))
    → (j : ℕ) → j < suc (length adj)
    → neighbours rowptr col (p + j) ≡ some (sorted (set_of (ns ∷ adj) j))
each_cons p rowptr col ns adj first rest zero lt = ap (neighbours rowptr col) (omega arith) ∙ first
each_cons p rowptr col ns adj first rest (suc j) lt =
    ap (neighbours rowptr col) (omega arith) ∙ rest j (omega arith)

csr-IsCompressed :
    (adj : List (List ℕ)) (p : ℕ) (rowptr col : List ℕ)
    → length rowptr ≡ p + 1
    → get_elem? rowptr p ≡ some (length col)
    → IsCompressed p rowptr col adj (csr adj rowptr col).0 (csr adj rowptr col).1
unfolding csr
csr-IsCompressed [] p rowptr col len last = record {
  size = omega arith;
  kept = λ i lt. refl;
  more = [];
  extended = sym (append-nil col);
  each = λ j lt. elim lt [ ];
}
csr-IsCompressed (ns ∷ adj) p rowptr col len last =
    let row = sorted ns in
    let next = rowptr ++ length (col ++ row) ∷ [] in
    let here : get_elem? next (suc p) ≡ some (length (col ++ row)) =
      ap (get_elem? next) (omega (arith, len))
      ∙ get_elem?-append_right rowptr (length (col ++ row) ∷ []) 0 in
    let q =
      csr-IsCompressed adj (suc p) next (col ++ row)
        (omega (arith, len, length-append rowptr (length (col ++ row) ∷ []))) here in
    let size_of = length-append rowptr (length (col ++ row) ∷ []) in
    let before : (i : ℕ)
        → i < length rowptr
        → get_elem? (csr adj next (col ++ row)).0 i ≡ get_elem? rowptr i =
      λ i lt. q.kept i (omega (arith, size_of)) ∙ get_elem?-append_left rowptr _ i lt in
    record {
      size = omega (arith, q.size, size_of);
      kept = before;
      more = row ++ q.more;
      extended = q.extended ∙ append_assoc col row q.more;
      each =
          each_cons p _ _ ns adj
            (first_row p _ _ col row q.more (before p (omega (arith, len)) ∙ last)
              (ap (get_elem? (csr adj next (col ++ row)).0) (omega arith)
                ∙ q.kept (suc p) (omega (arith, len, size_of))
                ∙ here)
              q.extended)
            q.each;
    }

-- The compressed rows of any sets: one row pointer more than sets, and the slice of a vertex is its
-- set, sorted.
pub csr-neighbours :
    (adj : List (List ℕ)) (v : ℕ)
    → v < length adj
    → (length (csr adj (0 ∷ []) []).0 ≡ length adj + 1)
      × (neighbours (csr adj (0 ∷ []) []).0 (csr adj (0 ∷ []) []).1 v
          ≡ some (sorted (set_of adj v)))
csr-neighbours adj v h =
    let p = csr-IsCompressed adj 0 (0 ∷ []) [] (omega arith) refl in
    (omega (arith, p.size), ap (neighbours _ _) (omega arith) ∙ p.each v h)
