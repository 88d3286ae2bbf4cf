-- ===== src/Apps/Kmeans/Totals.antt =====
-- What the loop over the points computes: the assignment, and the sums of each centroid's points.
use mathlib.Core.List.{append-nil, append_assoc}
use simtix.Base.{
  ℕ, true, false, ◌⊎◌, zero, suc, ◌+◌, ◌<◌, ◌≡◌, refl, sym, ap, ◌∙◌, arith, List, [], ◌∷◌, ◌++◌,
  some, ◌==◌, ==_ne, ==→eq, inl, inr, Bool-cases, if◌then◌else◌, get_elem?-eq-get_or, get_or, set,
  length, length-set,
}
use simtix.Apps.Kmeans.Tally.{Sums, add_at, tally_point, tally}
use simtix.Apps.Kmeans.Nearest.{IsNearest, best-IsNearest}

-- The sum of the values whose point is assigned to `j`, and their number.
unfoldable pub sum_where : ℕ → List ℕ → List ℕ → ℕ
sum_where j [] vals = 0
sum_where j (a ∷ assign) [] = 0
sum_where j (a ∷ assign) (v ∷ vals) = (if a == j then v else 0) + sum_where j assign vals

unfoldable pub count_where : ℕ → List ℕ → ℕ
count_where j [] = 0
count_where j (a ∷ assign) = (if a == j then 1 else 0) + count_where j assign

get_or-set :
    (l : List ℕ) (i j v : ℕ)
    → i < length l
    → get_or (set l i v) j 0 ≡ (if i == j then v else get_or l j 0)
get_or-set [] i j v h = elim h [ ]
get_or-set (x ∷ l) zero zero v h = refl
get_or-set (x ∷ l) zero (suc j) v h = rw (==_ne 0 (suc j) (λ e. omega arith)) refl
get_or-set (x ∷ l) (suc i) zero v h = rw (==_ne (suc i) 0 (λ e. omega arith)) refl
get_or-set (x ∷ l) (suc i) (suc j) v h = get_or-set l i j v (omega arith) ∙ ground arith

-- What `l[i] += v` leaves.
record Adds (l : List ℕ) (i v : ℕ) (l' : List ℕ) : Type 0 where
  made : add_at l i v ≡ some l'
  same_length : length l' ≡ length l
  item : (j : ℕ) → get_or l' j 0 ≡ get_or l j 0 + (if i == j then v else 0)

add_at-Adds : (l : List ℕ) (i v : ℕ) → i < length l → (l' : List ℕ) × Adds l i v l'
unfolding add_at
add_at-Adds l i v h = (
  set l i (get_or l i 0 + v),
  record {
    made = rw (get_elem?-eq-get_or l i 0 h) refl;
    same_length = length-set l i (get_or l i 0 + v);
    item = λ j. get_or-set l i j (get_or l i 0 + v) h ∙ at j (Bool-cases (i == j));
  },
)
  where
    at :
        (j : ℕ)
        → ((i == j) ≡ true) ⊎ ((i == j) ≡ false)
        → (if i == j then get_or l i 0 + v else get_or l j 0)
          ≡ get_or l j 0 + (if i == j then v else 0)
    at j (inl same) = rw same (ap (λ (t : ℕ). get_or l t 0 + v) (==→eq i j same))
    at j (inr other) = rw other (omega arith)

-- Every list of sums has one item per centroid.
pub record HasSums (k : ℕ) (t : Sums) : Type 0 where
  pub len_sx : length t.sx ≡ k
  pub len_sy : length t.sy ≡ k
  pub len_cn : length t.cn ≡ k

-- From the sums `t` the points go to the centroids `bs`, and add up to `t'`.
pub record Tallies (cx cy px py : List ℕ) (t t' : Sums) (bs : List ℕ) : Type 0 where
  pub sums : HasSums (length cx) t'
  pub assigned : t'.assign ≡ t.assign ++ bs
  pub count : length bs ≡ length px
  pub nearest :
      (i : ℕ) → i < length px → IsNearest cx cy (get_or px i 0) (get_or py i 0) (get_or bs i 0)
  pub sum_x : (j : ℕ) → get_or t'.sx j 0 ≡ get_or t.sx j 0 + sum_where j bs px
  pub sum_y : (j : ℕ) → get_or t'.sy j 0 ≡ get_or t.sy j 0 + sum_where j bs py
  pub number : (j : ℕ) → get_or t'.cn j 0 ≡ get_or t.cn j 0 + count_where j bs

module _ (cx cy : List ℕ) (same : length cx ≡ length cy) (more : 0 < length cx) where
  -- One point.
  record Steps (x y : ℕ) (t t' : Sums) (b : ℕ) : Type 0 where
    made : tally_point cx cy x y t ≡ some t'
    sums : HasSums (length cx) t'
    assigned : t'.assign ≡ t.assign ++ b ∷ []
    nearest : IsNearest cx cy x y b
    sum_x : (j : ℕ) → get_or t'.sx j 0 ≡ get_or t.sx j 0 + (if b == j then x else 0)
    sum_y : (j : ℕ) → get_or t'.sy j 0 ≡ get_or t.sy j 0 + (if b == j then y else 0)
    number : (j : ℕ) → get_or t'.cn j 0 ≡ get_or t.cn j 0 + (if b == j then 1 else 0)

  tally_point-Steps :
      (x y : ℕ) (t : Sums) → HasSums (length cx) t → (t' : Sums) × (b : ℕ) × Steps x y t t' b
  unfolding tally_point
  tally_point-Steps x y t h =
      let (b, found, p) = best-IsNearest cx cy x y same more in
      let (sx, ax) = add_at-Adds t.sx b x (omega (arith, p.in_range, h.len_sx)) in
      let (sy, ay) = add_at-Adds t.sy b y (omega (arith, p.in_range, h.len_sy)) in
      let (cn, ac) = add_at-Adds t.cn b 1 (omega (arith, p.in_range, h.len_cn)) in
      (
        record { assign = t.assign ++ b ∷ []; sx = sx; sy = sy; cn = cn },
        b,
        record {
          made = rw (found, ax.made, ay.made, ac.made) refl;
          sums = record {
            len_sx = ax.same_length ∙ h.len_sx;
            len_sy = ay.same_length ∙ h.len_sy;
            len_cn = ac.same_length ∙ h.len_cn;
          };
          assigned = refl;
          nearest = p;
          sum_x = ax.item;
          sum_y = ay.item;
          number = ac.item;
        },
      )

  -- The loop ends for all points, and each sum grows by the values of the points assigned to it.
  pub tally-Tallies :
      (px py : List ℕ) (t : Sums)
      → length px ≡ length py
      → HasSums (length cx) t
      → (t' : Sums) × (bs : List ℕ) × (tally cx cy px py t ≡ some t') × Tallies cx cy px py t t' bs
  unfolding tally sum_where count_where
  tally-Tallies [] py t len h = (
    t,
    [],
    refl,
    record {
      sums = h;
      assigned = sym (append-nil t.assign);
      count = refl;
      nearest = λ i lt. elim lt [ ];
      sum_x = λ j. omega arith;
      sum_y = λ j. omega arith;
      number = λ j. omega arith;
    },
  )
  tally-Tallies (x ∷ px) [] t len h = absurd (omega arith)
  tally-Tallies (x ∷ px) (y ∷ py) t len h =
      let (t1, b, s) = tally_point-Steps x y t h in
      let (t2, bs, e, r) = tally-Tallies px py t1 (omega arith) s.sums in
      (
        t2,
        b ∷ bs,
        rw s.made e,
        record {
          sums = r.sums;
          assigned =
              r.assigned
              ∙ ap (λ (l : List ℕ). l ++ bs) s.assigned
              ∙ append_assoc t.assign (b ∷ []) bs;
          count = ap suc r.count;
          nearest = nearest_cons b bs s.nearest r.nearest;
          sum_x = λ j. omega (arith, r.sum_x j, s.sum_x j);
          sum_y = λ j. omega (arith, r.sum_y j, s.sum_y j);
          number = λ j. omega (arith, r.number j, s.number j);
        },
      )
    where
      nearest_cons :
          (b : ℕ) (bs : List ℕ)
          → IsNearest cx cy x y b
          → ((i : ℕ)
              → i < length px
              → IsNearest cx cy (get_or px i 0) (get_or py i 0) (get_or bs i 0))
          → (i : ℕ) → i < length (x ∷ px)
          → IsNearest cx cy (get_or (x ∷ px) i 0) (get_or (y ∷ py) i 0) (get_or (b ∷ bs) i 0)
      nearest_cons b bs here later zero lt = here
      nearest_cons b bs here later (suc i) lt = later i (omega arith)
