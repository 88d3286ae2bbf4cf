-- ===== src/Sim/Merge.antt =====
-- What sim/lane_sweep.py keeps of the rows from before.
use simtix.Base.{
  ℕ, List, [], ◌∷◌, ◌++◌, map, Option, none, some, inl, inr, Bool, true, false, Bool-cases, ◌≡◌,
  refl, sym, ap, ◌∙◌, arith, if◌then◌else◌, leb, ◌==◌, ==_self, ==→eq, ◌||◌,
}
use mathlib.Core.Path.{subst}
use mathlib.Core.Option.{some-injective}
use mathlib.Core.List.{append-nil}
use simtix.Base.Text.{Text, codes, str}
use simtix.Sim.Sweeps.{
  collect, RunLog, among, kept_rows, row_lanes, insert_row, sort_rows, lane_rows, merged_rows,
}

-- The rows of one lane count.
abbrev pub rows_of : ℕ → List (ℕ × List Text) → List (List Text)
rows_of l [] = []
rows_of l (r ∷ rows) = let rest = rows_of l rows in if l == r.0 then r.1 ∷ rest else rest

-- The rows of one lane count in the file from before.
abbrev pub old_rows_of : ℕ → List (List Text) → List (List Text)
old_rows_of l [] = []
old_rows_of l (r ∷ old) =
    let rest = old_rows_of l old in
    elim (row_lanes r) [ none ↦ rest | some k ↦ if l == k then r ∷ rest else rest ]

rows_of-append :
    (l : ℕ) (xs ys : List (ℕ × List Text)) → rows_of l (xs ++ ys) ≡ rows_of l xs ++ rows_of l ys
rows_of-append l [] ys = refl
rows_of-append l (x ∷ xs) ys = elim (Bool-cases (l == x.0)) [
  | inl same ↦ rw same (ap (λ r. x.1 ∷ r) (rows_of-append l xs ys))
  | inr other ↦ rw other (rows_of-append l xs ys)
]

rows_of-insert_row :
    (l : ℕ) (r : ℕ × List Text) (rows : List (ℕ × List Text))
    → rows_of l (insert_row r rows) ≡ rows_of l (r ∷ rows)
unfolding insert_row
rows_of-insert_row l r [] = refl
rows_of-insert_row l r (q ∷ rows) = elim (Bool-cases (leb r.0 q.0)) [
  | inl low ↦ rw low refl
  | inr high ↦ rw high (elim (Bool-cases (l == q.0)) [
    | inl at_q ↦
        let off : (l == r.0) ≡ false = ground arith in
        rw (at_q, off) (ap (λ t. q.1 ∷ t) (rows_of-insert_row l r rows ∙ rw off refl))
    | inr off_q ↦ rw off_q (rows_of-insert_row l r rows)
  ])
]

rows_of-sort_rows :
    (l : ℕ) (rows : List (ℕ × List Text)) → rows_of l (sort_rows rows) ≡ rows_of l rows
unfolding sort_rows
rows_of-sort_rows l [] = refl
rows_of-sort_rows l (r ∷ rows) =
    rows_of-insert_row l r (sort_rows rows)
    ∙ ap (λ t. if l == r.0 then r.1 ∷ t else t) (rows_of-sort_rows l rows)

-- Tests of a list for a lane count.
rows_of_same : (l : ℕ) (rows : List (List Text)) → rows_of l (map (λ row. (l, row)) rows) ≡ rows
rows_of_same l [] = refl
rows_of_same l (r ∷ rows) = rw (==_self l) (ap (λ t. r ∷ t) (rows_of_same l rows))

rows_of_other :
    (l k : ℕ) (rows : List (List Text))
    → (l == k) ≡ false
    → rows_of l (map (λ row. (k, row)) rows) ≡ []
rows_of_other l k [] h = refl
rows_of_other l k (r ∷ rows) h = rw h (rows_of_other l k rows h)

rows_of-lane_rows :
    (l : ℕ) (runs : List (ℕ × RunLog))
    → among l (map (λ r. r.0) runs) ≡ false
    → rows_of l (lane_rows runs) ≡ []
unfolding lane_rows
rows_of-lane_rows l [] h = refl
rows_of-lane_rows l (r ∷ runs) h = elim (Bool-cases (l == r.0)) [
  | inl same ↦ absurd (listed (l == r.0) (among l (map (λ r. r.0) runs)) same h)
  | inr other ↦
      let rest =
        rows_of-lane_rows l runs (sym (ap (λ b. b || among l (map (λ r. r.0) runs)) other) ∙ h) in
      let mine = collect (codes "APPCSV,") 2 (str r.0 ∷ []) r.1.log in
      rows_of-append l (map (λ row. (r.0, row)) mine) (lane_rows runs)
      ∙ rw (rows_of_other l r.0 mine other) rest
]
  where
    listed : (a b : Bool) → a ≡ true → (a || b) ≡ false → ⊥
    listed true b e h = cc
    listed false b e h = cc

rows_of-kept_rows :
    (l : ℕ) (lanes : List ℕ) (old : List (List Text)) (kept : List (ℕ × List Text))
    → kept_rows lanes old ≡ some kept
    → rows_of l kept ≡ (if among l lanes then [] else old_rows_of l old)
unfolding kept_rows
rows_of-kept_rows l lanes [] kept e =
    ap (rows_of l) (sym (some-injective [] kept e)) ∙ sym (same_both (among l lanes))
  where
    same_both : (b : Bool) → ◌≡◌ {A = List (List Text)} (if b then [] else []) []
    same_both true = refl
    same_both false = refl
rows_of-kept_rows l lanes (r ∷ old) kept e =
    row_step (row_lanes r) (kept_rows lanes old) (λ rest. rows_of-kept_rows l lanes old rest) e
  where
    keep_row :
        (k : ℕ) (rest : List (ℕ × List Text))
        → rows_of l rest ≡ (if among l lanes then [] else old_rows_of l old)
        → rows_of l (if among k lanes then rest else (k, r) ∷ rest) ≡ (
            if among l lanes
            then []
            else if l == k
            then r ∷ old_rows_of l old
            else old_rows_of l old)
    keep_row k rest h = elim (Bool-cases (l == k)) [
      | inl same ↦ elim (Bool-cases (among l lanes)) [
        | inl run ↦
            let run' : among k lanes ≡ true =
              subst (λ n. among n lanes ≡ true) (==→eq l k same) run in
            rw (run, run') (h ∙ rw run refl)
        | inr idle ↦
            let idle' : among k lanes ≡ false =
              subst (λ n. among n lanes ≡ false) (==→eq l k same) idle in
            rw (idle, idle', same) (ap (λ t. r ∷ t) (h ∙ rw idle refl))
      ]
      | inr other ↦ elim (Bool-cases (among k lanes)) [
        | inl run ↦ rw (run, other) h
        | inr idle ↦ rw (idle, other) h
      ]
    ]

    row_step :
        (o : Option ℕ) (m : Option (List (ℕ × List Text)))
        → ((rest : List (ℕ × List Text))
            → m ≡ some rest
            → rows_of l rest ≡ (if among l lanes then [] else old_rows_of l old))
        → ◌≡◌ {A = Option (List (ℕ × List Text))}
            (elim o [
              | none ↦ none
              | some k ↦ elim m [
                | none ↦ none
                | some rest ↦ some (if among k lanes then rest else (k, r) ∷ rest)
              ]
            ])
            (some kept)
        → rows_of l kept ≡ (
            if among l lanes then [] else elim o [
              | none ↦ old_rows_of l old
              | some k ↦ if l == k then r ∷ old_rows_of l old else old_rows_of l old
            ])
    row_step none m rest h = cc
    row_step (some k) none rest h = cc
    row_step (some k) (some rows) rest h =
        ap (rows_of l) (sym (some-injective _ kept h)) ∙ keep_row k rows (rest rows refl)

-- For the runs of any lane counts and any old rows that can be read: of a lane count that was run, the
-- merged rows are the new ones, and of another one the old ones, each in their order.
pub merged_rows_lem :
    (l : ℕ) (runs : List (ℕ × RunLog)) (old : List (List Text)) (rows : List (ℕ × List Text))
    → merged_rows runs old ≡ some rows
    → rows_of l rows
      ≡ (if among l (map (λ r. r.0) runs) then rows_of l (lane_rows runs) else old_rows_of l old)
unfolding merged_rows
merged_rows_lem l runs old rows e =
    merge_step (kept_rows (map (λ r. r.0) runs) old)
      (λ kept. rows_of-kept_rows l (map (λ r. r.0) runs) old kept) e
  where
    put_together :
        (kept : List (ℕ × List Text))
        → rows_of l kept ≡ (if among l (map (λ r. r.0) runs) then [] else old_rows_of l old)
        → rows_of l kept ++ rows_of l (lane_rows runs) ≡ (
            if among l (map (λ r. r.0) runs) then rows_of l (lane_rows runs) else old_rows_of l old)
    put_together kept h = elim (Bool-cases (among l (map (λ r. r.0) runs))) [
      | inl run ↦
          let gone : rows_of l kept ≡ [] = h ∙ rw run refl in
          rw run (ap (λ t. t ++ rows_of l (lane_rows runs)) gone)
      | inr idle ↦
          let whole : rows_of l kept ≡ old_rows_of l old = h ∙ rw idle refl in
          rw (idle, rows_of-lane_rows l runs idle) (append-nil (rows_of l kept) ∙ whole)
    ]

    merge_step :
        (o : Option (List (ℕ × List Text)))
        → ((kept : List (ℕ × List Text))
            → o ≡ some kept
            → rows_of l kept ≡ (if among l (map (λ r. r.0) runs) then [] else old_rows_of l old))
        → ◌≡◌ {A = Option (List (ℕ × List Text))}
            (elim o [ none ↦ none | some kept ↦ some (sort_rows (kept ++ lane_rows runs)) ])
            (some rows)
        → rows_of l rows ≡ (
            if among l (map (λ r. r.0) runs) then rows_of l (lane_rows runs) else old_rows_of l old)
    merge_step none keeps h = cc
    merge_step (some kept) keeps h =
        ap (rows_of l) (sym (some-injective _ rows h))
        ∙ rows_of-sort_rows l (kept ++ lane_rows runs)
        ∙ rows_of-append l kept (lane_rows runs)
        ∙ put_together kept (keeps kept refl)
