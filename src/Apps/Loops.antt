-- ===== src/Apps/Loops.antt =====
-- The loops of the generators that collect a list of results, any of which may fail.
use simtix.Base.{
  ℕ, zero, suc, ◌+◌, ◌*◌, ◌≤◌, ◌<◌, ◌≡◌, refl, sym, ap, ◌∙◌, arith, List, [], ◌∷◌, ◌++◌, Option,
  some, length, length-append, get_elem?, get_elem?-append_left, get_elem?-append_right, range_from,
  ◌∈◌,
}
use mathlib.Core.Path.{subst, subst₂}
use mathlib.Core.Option.{some-injective}
use simtix.Base.{inl, inr, map, get_or, get_elem?-eq-get_or}
use simtix.Base.Partial.{◌>>=◌}
use simtix.Apps.Gen.{traverse, draws}

-- `for r in range(lo, lo + m): for col in range(n): out.append(f(r, col))`
unfoldable pub rows : {B : Type 0} → (ℕ → ℕ → Option B) → ℕ → ℕ → ℕ → Option (List B)
rows f n lo zero = some []
rows f n lo (suc m) = do
  row ← traverse (f lo) (range_from 0 n)
  rest ← rows f n (suc lo) m
  some (row ++ rest)

module _ {B : Type 0} where
  -- The list that a loop from `lo` on collects: its items are in `P`.
  pub record Collects (P : ℕ → B → Type 0) (lo n : ℕ) (o : Option (List B)) : Type 0 where
    pub items : List B
    pub made : o ≡ some items
    pub count : length items ≡ n
    pub each : (i : ℕ) → i < n → (b : B) × (get_elem? items i ≡ some b) × P (lo + i) b

  each-cons :
      (P : ℕ → B → Type 0) (lo n : ℕ) (b : B) (rest : List B)
      → P lo b
      → ((i : ℕ) → i < n → (c : B) × (get_elem? rest i ≡ some c) × P (suc lo + i) c)
      → (i : ℕ) → i < suc n
      → (c : B) × (get_elem? (b ∷ rest) i ≡ some c) × P (lo + i) c
  each-cons P lo n b rest p h zero lt = (b, refl, subst (λ j. P j b) (omega arith) p)
  each-cons P lo n b rest p h (suc i) lt =
      let (c, e, q) = h i (omega arith) in (c, e, subst (λ j. P j c) (omega arith) q)

  pub traverse-Collects :
      (f : ℕ → Option B) (P : ℕ → B → Type 0) (lo n : ℕ)
      → ((i : ℕ) → i < n → (b : B) × (f (lo + i) ≡ some b) × P (lo + i) b)
      → Collects P lo n (traverse f (range_from lo n))
  unfolding traverse
  traverse-Collects f P lo zero h = record {
    items = [];
    made = refl;
    count = refl;
    each = λ i lt. elim lt [ ];
  }
  traverse-Collects f P lo (suc n) h =
      let (b, e, p) = h 0 (omega arith) in
      let zero_step : lo + 0 ≡ lo = omega arith in
      let rest = traverse-Collects f P (suc lo) n λ i lt.
        subst (λ j. (b : B) × (f j ≡ some b) × P j b) (omega arith) (h (suc i) (omega arith)) in
      record {
        items = b ∷ rest.items;
        made = rw (sym (ap f zero_step) ∙ e, rest.made, traverse) refl;
        count = ap suc rest.count;
        each = each-cons P lo n b rest.items (subst (λ j. P j b) zero_step p) rest.each;
      }

  -- The same of two nested loops: row by row.
  pub record CollectsRows (P : ℕ → ℕ → B → Type 0) (lo m n : ℕ) (o : Option (List B)) : Type 0 where
    pub items : List B
    pub made : o ≡ some items
    pub count : length items ≡ m * n
    pub each :
        (r col : ℕ)
        → r < m
        → col < n
        → (b : B) × (get_elem? items (r * n + col) ≡ some b) × P (lo + r) col b

  each-append :
      (P : ℕ → ℕ → B → Type 0) (lo m n : ℕ) (row rest : List B)
      → length row ≡ n
      → ((col : ℕ) → col < n → (b : B) × (get_elem? row col ≡ some b) × P lo (0 + col) b)
      → ((r col : ℕ)
          → r < m
          → col < n
          → (b : B) × (get_elem? rest (r * n + col) ≡ some b) × P (suc lo + r) col b)
      → (r col : ℕ) → r < suc m
      → col < n
      → (b : B) × (get_elem? (row ++ rest) (r * n + col) ≡ some b) × P (lo + r) col b
  each-append P lo m n row rest len here later zero col lr lc =
      let (b, e, p) = here col lc in
      (
        b,
        ap (get_elem? (row ++ rest)) (omega arith)
            ∙ get_elem?-append_left row rest col (omega arith)
            ∙ e,
        subst₂ (λ i j. P i j b) (omega arith) (omega arith) p,
      )
  each-append P lo m n row rest len here later (suc r) col lr lc =
      let (b, e, p) = later r col (omega arith) lc in
      (
        b,
        ap (get_elem? (row ++ rest)) (omega arith)
            ∙ get_elem?-append_right row rest (r * n + col)
            ∙ e,
        subst (λ j. P j col b) (omega arith) p,
      )

  pub rows-CollectsRows :
      (f : ℕ → ℕ → Option B) (P : ℕ → ℕ → B → Type 0) (lo m n : ℕ)
      → ((r col : ℕ) → r < m → col < n → (b : B) × (f (lo + r) col ≡ some b) × P (lo + r) col b)
      → CollectsRows P lo m n (rows f n lo m)
  unfolding rows
  rows-CollectsRows f P lo zero n h = record {
    items = [];
    made = refl;
    count = omega arith;
    each = λ r col lt. elim lt [ ];
  }
  rows-CollectsRows f P lo (suc m) n h =
      let zero_step : lo + 0 ≡ lo = omega arith in
      let first = traverse-Collects (f lo) (P lo) 0 n λ i lt.
        subst₂ (λ j i'. (b : B) × (f j i' ≡ some b) × P j i' b) zero_step (omega arith)
          (h 0 i (omega arith) lt) in
      let rest = rows-CollectsRows f P (suc lo) m n λ r col lt lc.
        subst (λ j. (b : B) × (f j col ≡ some b) × P j col b) (omega arith)
          (h (suc r) col (omega arith) lc) in
      record {
        items = first.items ++ rest.items;
        made = rw (first.made, rest.made) refl;
        count = omega (arith, length-append first.items rest.items, first.count, rest.count);
        each = each-append P lo m n first.items rest.items first.count first.each rest.each;
      }

module _ {S A : Type 0} (P : A → Type 0) (op : S → A × S) (each : (s : S) → P (op s).0) where
  -- What holds of every result of a source holds of all that is drawn.
  pub draws-each : (n : ℕ) (s : S) (i : ℕ) (a : A) → get_elem? (draws n op s).0 i ≡ some a → P a
  unfolding draws
  draws-each zero s i a e = cc
  draws-each (suc n) s zero a e = subst P (some-injective _ _ e) (each s)
  draws-each (suc n) s (suc i) a e = draws-each n (op s).1 i a e

pub mem-range_from : (j lo n : ℕ) → j ∈ range_from lo n → (lo ≤ j) × (j < lo + n)
mem-range_from j lo zero m = elim m [ ]
mem-range_from j lo (suc n) (inl e) = omega arith
mem-range_from j lo (suc n) (inr m) = omega (arith, mem-range_from j (suc lo) n m)

-- `[l[i] for i in idxs]`, where every index is in range
pub traverse_get :
    (l idxs : List ℕ)
    → ((i : ℕ) → i ∈ idxs → i < length l)
    → traverse (get_elem? l) idxs ≡ some (map (λ (i : ℕ). get_or l i 0) idxs)
unfolding traverse
traverse_get l [] h = refl
traverse_get l (i ∷ idxs) h =
    rw
      (
        get_elem?-eq-get_or l i 0 (h i (inl refl)),
        traverse_get l idxs (λ j m. h j (inr m)),
        traverse,
      )
      refl
