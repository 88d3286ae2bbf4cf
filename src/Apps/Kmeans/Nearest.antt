-- ===== src/Apps/Kmeans/Nearest.antt =====
-- The nearest centroid: the first index of a least distance.
use simtix.Base.{
  ℕ, zero, suc, ◌≤◌, ◌<◌, ◌≡◌, refl, sym, ap, arith, List, [], ◌∷◌, some, false, Bool-cases, leb,
  ◌==◌, ==→eq, inl, inr, if◌then◌else◌, get_or, length, ◌⊎◌,
}
use simtix.Apps.Kmeans.Tally.{min_from, minimum, index_of, best, squared_distance, distances}

-- `b` is the first index of a least item of `d`.
pub record IsFirstLeast (d : List ℕ) (b : ℕ) : Type 0 where
  pub in_range : b < length d
  pub least : (i : ℕ) → i < length d → get_or d b 0 ≤ get_or d i 0
  pub first : (i : ℕ) → i < b → get_or d b 0 < get_or d i 0

min_from-le : (least : ℕ) (d : List ℕ) → min_from least d ≤ least
unfolding min_from
min_from-le least [] = omega arith
min_from-le least (v ∷ d) =
    let le : (if leb least v then least else v) ≤ least = ground arith in
    omega (arith, le, min_from-le (if leb least v then least else v) d)

min_from-le_each : (least : ℕ) (d : List ℕ) (i : ℕ) → i < length d → min_from least d ≤ get_or d i 0
unfolding min_from
min_from-le_each least [] i h = elim h [ ]
min_from-le_each least (v ∷ d) zero h =
    let le : (if leb least v then least else v) ≤ v = ground arith in
    omega (arith, le, min_from-le (if leb least v then least else v) d)
min_from-le_each least (v ∷ d) (suc i) h =
    min_from-le_each (if leb least v then least else v) d i (omega arith)

min_from_found :
    (least : ℕ) (d : List ℕ)
    → (min_from least d ≡ least) ⊎ ((i : ℕ) × (i < length d) × (get_or d i 0 ≡ min_from least d))
unfolding min_from
min_from_found least [] = inl refl
min_from_found least (v ∷ d) = elim (Bool-cases (leb least v)) [
  | inl le ↦ rw le (elim (min_from_found least d) [
    | inl e ↦ inl e
    | inr (i, h, e) ↦ inr (suc i, omega arith, e)
  ])
  | inr gt ↦ rw gt (elim (min_from_found v d) [
    | inl e ↦ inr (0, omega arith, omega arith)
    | inr (i, h, e) ↦ inr (suc i, omega arith, e)
  ])
]

-- `index_of` finds the first index of a value that is there.
index_of_first :
    (v : ℕ) (d : List ℕ) (i : ℕ)
    → i < length d
    → get_or d i 0 ≡ v
    → (b : ℕ) × (index_of v d ≡ some b)
      × (b < length d)
      × (get_or d b 0 ≡ v)
      × ((j : ℕ) → j < b → ¬ (get_or d j 0 ≡ v))
unfolding index_of
index_of_first v [] i h e = elim h [ ]
index_of_first v (w ∷ d) i h e = elim (Bool-cases (w == v)) [
  | inl same ↦ (0, rw (same, index_of) refl, omega arith, ==→eq w v same, λ j lt. elim lt [ ])
  | inr other ↦
      let (i', h', e') = tail_index i h e other in
      let (b, found, lt, at, none_before) = index_of_first v d i' h' e' in
      (suc b, rw (other, found, index_of) refl, omega arith, at, before other none_before)
]
  where
    tail_index :
        (i : ℕ)
        → i < length (w ∷ d)
        → get_or (w ∷ d) i 0 ≡ v
        → (w == v) ≡ false
        → (i' : ℕ) × (i' < length d) × (get_or d i' 0 ≡ v)
    tail_index zero h e other = absurd (ground arith)
    tail_index (suc i) h e other = (i, omega arith, e)

    before :
        {b : ℕ}
        → (w == v) ≡ false
        → ((j : ℕ) → j < b → ¬ (get_or d j 0 ≡ v))
        → (j : ℕ) → j < suc b
        → ¬ (get_or (w ∷ d) j 0 ≡ v)
    before other h zero lt e = ground arith
    before other h (suc j) lt e = h j (omega arith) e

-- `d.index(min(d))` is the first index of a least item, for every list that is not empty.
best-IsFirstLeast : (d : List ℕ) → 0 < length d → (b : ℕ) × (best d ≡ some b) × IsFirstLeast d b
unfolding best minimum
best-IsFirstLeast [] h = elim h [ ]
best-IsFirstLeast (v ∷ d) h =
    let (i, hi, ei) = there in
    let (b, found, lt, at, none_before) = index_of_first (min_from v d) (v ∷ d) i hi ei in
    (
      b,
      found,
      record {
        in_range = lt;
        least = λ j hj. omega (arith, at, least j hj);
        first = λ j hj. omega (arith, at, least j (omega arith), none_before j hj);
      },
    )
  where
    least : (j : ℕ) → j < length (v ∷ d) → min_from v d ≤ get_or (v ∷ d) j 0
    least zero hj = min_from-le v d
    least (suc j) hj = min_from-le_each v d j (omega arith)

    there : (i : ℕ) × (i < length (v ∷ d)) × (get_or (v ∷ d) i 0 ≡ min_from v d)
    there = elim (min_from_found v d) [
      | inl e ↦ (0, omega arith, sym e)
      | inr (i, hi, e) ↦ (suc i, omega arith, e)
    ]

length-distances :
    (x y : ℕ) (cx cy : List ℕ) → length cx ≡ length cy → length (distances x y cx cy) ≡ length cx
unfolding distances
length-distances x y [] cy h = refl
length-distances x y (c ∷ cx) [] h = omega arith
length-distances x y (c ∷ cx) (e ∷ cy) h = ap suc (length-distances x y cx cy (omega arith))

get_or-distances :
    (x y : ℕ) (cx cy : List ℕ) (j : ℕ)
    → length cx ≡ length cy
    → j < length cx
    → get_or (distances x y cx cy) j 0 ≡ squared_distance x y (get_or cx j 0) (get_or cy j 0)
unfolding distances
get_or-distances x y [] cy j h lt = elim lt [ ]
get_or-distances x y (c ∷ cx) [] j h lt = omega arith
get_or-distances x y (c ∷ cx) (e ∷ cy) zero h lt = refl
get_or-distances x y (c ∷ cx) (e ∷ cy) (suc j) h lt =
    get_or-distances x y cx cy j (omega arith) (omega arith)

-- The centroid `b` is nearest to the point, and the first of the nearest.
pub record IsNearest (cx cy : List ℕ) (x y b : ℕ) : Type 0 where
  pub in_range : b < length cx
  pub least :
      (j : ℕ)
      → j < length cx
      → squared_distance x y (get_or cx b 0) (get_or cy b 0)
        ≤ squared_distance x y (get_or cx j 0) (get_or cy j 0)
  pub first :
      (j : ℕ)
      → j < b
      → squared_distance x y (get_or cx b 0) (get_or cy b 0)
        < squared_distance x y (get_or cx j 0) (get_or cy j 0)

pub best-IsNearest :
    (cx cy : List ℕ) (x y : ℕ)
    → length cx ≡ length cy
    → 0 < length cx
    → (b : ℕ) × (best (distances x y cx cy) ≡ some b) × IsNearest cx cy x y b
best-IsNearest cx cy x y same more =
    let (b, found, p) =
      best-IsFirstLeast (distances x y cx cy) (omega (arith, length-distances x y cx cy same)) in
    let lt : b < length cx = omega (arith, p.in_range, length-distances x y cx cy same) in
    (
      b,
      found,
      record {
        in_range = lt;
        least = λ j hj. omega (
          arith,
          p.least j (omega (arith, length-distances x y cx cy same)),
          get_or-distances x y cx cy b same lt,
          get_or-distances x y cx cy j same hj,
        );
        first = λ j hj. omega (
          arith,
          p.first j hj,
          get_or-distances x y cx cy b same lt,
          get_or-distances x y cx cy j same (omega arith),
        );
      },
    )
