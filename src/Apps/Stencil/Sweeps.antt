-- ===== src/Apps/Stencil/Sweeps.antt =====
-- What a sweep does to the whole grid: every inner point becomes the mean of its neighbourhood in
-- the old grid, and no other point changes.
use mathlib.Core.Path.{subst}
use mathlib.Core.Option.{some-injective}
use native.Mathlib.Nat.{mul-le-mul_right}
use native.Mathlib.Decide.{ℕ_discrete}
use simtix.Base.{
  ℕ, zero, suc, ◌+◌, ◌-◌, ◌*◌, ◌≤◌, ◌<◌, ◌≡◌, ◌≢◌, refl, sym, ap, ◌∙◌, arith, List, [], ◌∷◌, ◌++◌,
  some, ◌∈◌, ◌⊎◌, inl, inr, get_elem?, set, length, length-set, range_from,
}
use simtix.Fp.Units.{units}
use simtix.Fp.Accumulate.{one}
use simtix.Apps.Loops.{mem-range_from}
use simtix.Apps.Inputs.{AllUnit}
use simtix.Apps.Stencil.Sweep.{points, sweep_points, sweep}
use simtix.Apps.Stencil.Bounded.{IsMean, IsInner, point_value-IsMean}

get_elem?-set_same : (l : List ℕ) (i v : ℕ) → i < length l → get_elem? (set l i v) i ≡ some v
get_elem?-set_same [] i v h = elim h [ ]
get_elem?-set_same (x ∷ l) zero v h = refl
get_elem?-set_same (x ∷ l) (suc i) v h = get_elem?-set_same l i v (omega arith)

get_elem?-set_other : (l : List ℕ) (i j v : ℕ) → i ≢ j → get_elem? (set l i v) j ≡ get_elem? l j
get_elem?-set_other [] i j v h = refl
get_elem?-set_other (x ∷ l) zero zero v h = absurd (h refl)
get_elem?-set_other (x ∷ l) zero (suc j) v h = refl
get_elem?-set_other (x ∷ l) (suc i) zero v h = refl
get_elem?-set_other (x ∷ l) (suc i) (suc j) v h = get_elem?-set_other l i j v (λ e. h (ap suc e))

mem_dec : (p : ℕ) (ps : List ℕ) → (p ∈ ps) ⊎ (¬ (p ∈ ps))
mem_dec p [] = inr (λ m. m)
mem_dec p (q ∷ ps) = elim (ℕ_discrete p q) [
  | yes e ↦ inl (inl e)
  | no ne ↦ elim (mem_dec p ps) [
    | inl m ↦ inl (inr m)
    | inr n ↦ inr (λ m. elim m [ inl e ↦ ne e | inr m' ↦ n m' ])
  ]
]

-- From the grid `cur` a sweep over the points `ps` gives `nxt`.
pub record IsSweep (cur : List ℕ) (s : ℕ) (ps nxt : List ℕ) : Type 0 where
  pub same_length : length nxt ≡ length cur
  pub inner : (p : ℕ) → p ∈ ps → (v : ℕ) × (get_elem? nxt p ≡ some v) × IsMean cur s p v
  pub outer : (p : ℕ) → ¬ (p ∈ ps) → get_elem? nxt p ≡ get_elem? cur p
  pub bounded : AllUnit nxt

module _ (cur : List ℕ) (s : ℕ) (unit : AllUnit cur) where
  -- The same for the points left and the grid that is being written.
  record Writes (ps nxt res : List ℕ) : Type 0 where
    same_length : length res ≡ length nxt
    inner :
        (p : ℕ)
        → p ∈ ps
        → (v : ℕ) × (get_elem? res p ≡ some v) × (units v ≤ units one) × IsMean cur s p v
    outer : (p : ℕ) → ¬ (p ∈ ps) → get_elem? res p ≡ get_elem? nxt p

  sweep_points-Writes :
      (ps nxt : List ℕ)
      → ((p : ℕ) → p ∈ ps → IsInner cur s p)
      → length nxt ≡ length cur
      → (res : List ℕ) × (sweep_points cur s ps nxt ≡ some res) × Writes ps nxt res
  unfolding sweep_points
  sweep_points-Writes [] nxt h len =
      (nxt, refl, record { same_length = refl; inner = λ p m. elim m [ ]; outer = λ p n. refl })
  sweep_points-Writes (p ∷ ps) nxt h len =
      let (v, e, le, mean) = point_value-IsMean cur s p unit (h p (inl refl)) in
      let (res, f, w) =
        sweep_points-Writes ps (set nxt p v) (λ q m. h q (inr m)) (length-set nxt p v ∙ len) in
      let lt : p < length nxt = omega (arith, len, (h p (inl refl)).inside) in
      (
        res,
        rw e f,
        record {
          same_length = w.same_length ∙ length-set nxt p v;
          inner = λ q m. elim (mem_dec q ps) [
            | inl later ↦ w.inner q later
            | inr last ↦ elim m [
              | inl same ↦ (
                v,
                w.outer q last ∙ ap (get_elem? (set nxt p v)) same ∙ get_elem?-set_same nxt p v lt,
                le,
                subst (λ i. IsMean cur s i v) (sym same) mean,
              )
              | inr later ↦ absurd (last later)
            ]
          ];
          outer = λ q n.
              w.outer q (λ m. n (inr m))
              ∙ get_elem?-set_other nxt p q v (λ same. n (inl (sym same)));
        },
      )

mem-append : (p : ℕ) (ps qs : List ℕ) → p ∈ (ps ++ qs) → (p ∈ ps) ⊎ (p ∈ qs)
mem-append p [] qs m = inr m
mem-append p (x ∷ ps) qs (inl e) = inl (inl e)
mem-append p (x ∷ ps) qs (inr m) = elim (mem-append p ps qs m) [
  | inl a ↦ inl (inr a)
  | inr b ↦ inr b
]

-- The points of the rows from `lo` on are columns `lanes` to `lanes + w` of the rows of the grid.
mem-points :
    (p lanes s w lo h : ℕ)
    → p ∈ points lanes s w lo h
    → (i : ℕ) × (j : ℕ) × (lo ≤ i) × (i < lo + h) × (j < w) × (p ≡ (i + 1) * s + lanes + j)
unfolding points
mem-points p lanes s w lo zero m = elim m [ ]
mem-points p lanes s w lo (suc h) m =
    elim (mem-append p (range_from ((lo + 1) * s + lanes) w) _ m) [
      | inl here ↦
          let (least, most) = mem-range_from p ((lo + 1) * s + lanes) w here in
          (lo, p - ((lo + 1) * s + lanes), omega arith, omega arith, omega arith, omega arith)
      | inr later ↦
          let (i, j, le, lt, col, e) = mem-points p lanes s w (suc lo) h later in
          (i, j, omega arith, omega arith, col, e)
    ]

-- A sweep over a grid of h rows of w points between -1.0 and 1.0, with a row of padding above and
-- below and `lanes` words at each side, gives a grid: every inner point is the rounded mean of its
-- neighbourhood in the old grid, whatever the order of the points, no other word changes, and all
-- words stay between -1.0 and 1.0.
pub sweep-IsSweep :
    (lanes h w : ℕ) (cur : List ℕ)
    → 0 < lanes
    → length cur ≡ (h + 2) * (w + 2 * lanes)
    → AllUnit cur
    → (nxt : List ℕ) × (sweep lanes (w + 2 * lanes) h w cur ≡ some nxt)
      × IsSweep cur (w + 2 * lanes) (points lanes (w + 2 * lanes) w 0 h) nxt
unfolding sweep
sweep-IsSweep lanes h w cur more len unit =
    let (nxt, e, p) = sweep_points-Writes cur s unit (points lanes s w 0 h) cur inner refl in
    (
      nxt,
      e,
      record {
        same_length = p.same_length;
        inner = λ q m. let (v, f, le, mean) = p.inner q m in (v, f, mean);
        outer = p.outer;
        bounded = λ q x f. bounded nxt p.inner p.outer q x f (mem_dec q (points lanes s w 0 h));
      },
    )
  where
    s : ℕ
    s = w + 2 * lanes

    inner : (p : ℕ) → p ∈ points lanes s w 0 h → IsInner cur s p
    inner p m =
        let (i, j, le, lt, col, e) = mem-points p lanes s w 0 h m in
        record {
          above = omega (arith, e, mul-le-mul_right {m = 1} {n = i + 1} s (omega arith));
          inside = omega (
            arith,
            e,
            len,
            mul-le-mul_right {m = i + 3} {n = h + 2} s (omega arith),
            mul-le-mul_right {m = 1} {n = 1} s (omega arith),
          );
          stride = omega arith;
        }

    bounded :
        (nxt : List ℕ)
        → ((p : ℕ)
            → p ∈ points lanes s w 0 h
            → (v : ℕ) × (get_elem? nxt p ≡ some v) × (units v ≤ units one) × IsMean cur s p v)
        → ((p : ℕ) → ¬ (p ∈ points lanes s w 0 h) → get_elem? nxt p ≡ get_elem? cur p)
        → (q x : ℕ) → get_elem? nxt q ≡ some x
        → (q ∈ points lanes s w 0 h) ⊎ (¬ (q ∈ points lanes s w 0 h))
        → units x ≤ units one
    bounded nxt hi ho q x f (inl m) =
        let (v, g, le, mean) = hi q m in
        subst (λ t. units t ≤ units one) (some-injective _ _ (sym g ∙ f)) le
    bounded nxt hi ho q x f (inr n) = unit q x (sym (ho q n) ∙ f)
