-- ===== src/Apps/Stencil/Bounded.antt =====
-- A sweep over a grid between -1.0 and 1.0 never overflows and stays there.
use simtix.Base.{
  ℕ, ◌+◌, ◌-◌, ◌^◌, ◌≤◌, ◌<◌, ◌≡◌, refl, arith, List, some, get_elem?, get_elem?_of_lt, length,
}
use simtix.Fp.{Fraction, f2fr, fadd, fmul, fma, add_fr, mul_fr, exponent_field}
use simtix.Fp.Units.{units}
use simtix.Fp.Correct.{IsNearestWord}
use simtix.Fp.Bounds.{
  IsBounded, f2fr-IsBounded, fadd-Rounds, fmul-Rounds, fma-Rounds, word-IsBarrier, finite_of_units,
}
use simtix.Fp.Accumulate.{one}
use simtix.Apps.Inputs.{AllUnit}
use simtix.Apps.Stencil.Sweep.{c0, c1, point_value}

-- The operation on the words x and y gives the exact result, rounded once.
pub record IsSum (x y v : ℕ) : Type 0 where
  pub left : Fraction
  pub right : Fraction
  pub reads_left : f2fr x ≡ some left
  pub reads_right : f2fr y ≡ some right
  pub nearest : IsNearestWord (add_fr left right) v

pub record IsProduct (x y v : ℕ) : Type 0 where
  pub left : Fraction
  pub right : Fraction
  pub reads_left : f2fr x ≡ some left
  pub reads_right : f2fr y ≡ some right
  pub nearest : IsNearestWord (mul_fr left right) v

pub record IsFused (x y z v : ℕ) : Type 0 where
  pub left : Fraction
  pub right : Fraction
  pub addend : Fraction
  pub reads_left : f2fr x ≡ some left
  pub reads_right : f2fr y ≡ some right
  pub reads_addend : f2fr z ≡ some addend
  pub nearest : IsNearestWord (add_fr (mul_fr left right) addend) v

-- v is the weighted mean of the point's neighbourhood in the grid `cur`, rounded in each of the
-- five operations: 0.125 * ((up + down) + (left + right)) + 0.5 * centre.
pub record IsMean (cur : List ℕ) (s p v : ℕ) : Type 0 where
  pub up : ℕ
  pub down : ℕ
  pub left : ℕ
  pub right : ℕ
  pub centre : ℕ
  pub vertical : ℕ
  pub horizontal : ℕ
  pub sm : ℕ
  pub scaled : ℕ
  pub at_up : get_elem? cur (p - s) ≡ some up
  pub at_down : get_elem? cur (p + s) ≡ some down
  pub at_left : get_elem? cur (p - 1) ≡ some left
  pub at_right : get_elem? cur (p + 1) ≡ some right
  pub at_centre : get_elem? cur p ≡ some centre
  pub sum_vertical : IsSum up down vertical
  pub sum_horizontal : IsSum left right horizontal
  pub sum_both : IsSum vertical horizontal sm
  pub half : IsProduct c0 centre scaled
  pub mean : IsFused c1 sm scaled v

-- A word of magnitude at most `bound` has a value.
value :
    (bound x : ℕ)
    → units x ≤ bound
    → bound ≤ units 0x7f7f_ffff
    → (f : Fraction) × IsBounded bound x f
value bound x h small = f2fr-IsBounded bound x h (finite_of_units x (omega arith))

fadd-IsSum :
    (a w x y : ℕ)
    → a ≤ units 0x7f7f_ffff
    → w < 2 ^ 31
    → exponent_field w < 255
    → a + a ≤ units w
    → units x ≤ a
    → units y ≤ a
    → (v : ℕ) × (fadd x y ≡ some v) × (units v ≤ units w) × IsSum x y v
fadd-IsSum a w x y small hw fw le hx hy =
    let (f, p) = value a x hx small in
    let (g, q) = value a y hy small in
    let r = fadd-Rounds a a w 0 (word-IsBarrier w hw fw) x y f g p q (omega arith) in
    (
      r.word,
      r.made,
      r.within,
      record {
        left = f;
        right = g;
        reads_left = p.made;
        reads_right = q.made;
        nearest = r.nearest;
      },
    )

fmul-IsProduct :
    (x : ℕ)
    → units x ≤ units one
    → (v : ℕ) × (fmul c0 x ≡ some v) × (units v ≤ units c0) × IsProduct c0 x v
fmul-IsProduct x hx =
    let (f, p) = value (units c0) c0 (omega arith) (omega arith) in
    let (g, q) = value (units one) x hx (omega arith) in
    let r =
      fmul-Rounds (units c0) (units one) c0 0 (word-IsBarrier c0 (omega arith) (omega arith)) c0 x f
        g p q (omega arith) in
    (
      r.word,
      r.made,
      r.within,
      record {
        left = f;
        right = g;
        reads_left = p.made;
        reads_right = q.made;
        nearest = r.nearest;
      },
    )

fma-IsFused :
    (sm scaled : ℕ)
    → units sm ≤ units 0x4080_0000
    → units scaled ≤ units c0
    → (v : ℕ) × (fma c1 sm scaled ≡ some v) × (units v ≤ units one) × IsFused c1 sm scaled v
fma-IsFused sm scaled hs hc =
    let (f, p) = value (units c1) c1 (omega arith) (omega arith) in
    let (g, q) = value (units 0x4080_0000) sm hs (omega arith) in
    let (k, t) = value (units c0) scaled hc (omega arith) in
    let r =
      fma-Rounds (units c1) (units 0x4080_0000) one 0
        (word-IsBarrier one (omega arith) (omega arith)) c1 sm f g p q (units c0) (units c0) scaled
        k t (omega arith) (omega arith) in
    (
      r.word,
      r.made,
      r.within,
      record {
        left = f;
        right = g;
        addend = k;
        reads_left = p.made;
        reads_right = q.made;
        reads_addend = t.made;
        nearest = r.nearest;
      },
    )

-- A point whose neighbours are in the grid.
pub record IsInner (cur : List ℕ) (s p : ℕ) : Type 0 where
  pub above : s ≤ p
  pub inside : p + s < length cur
  pub stride : 0 < s

pub point_value-IsMean :
    (cur : List ℕ) (s p : ℕ)
    → AllUnit cur
    → IsInner cur s p
    → (v : ℕ) × (point_value cur s p ≡ some v) × (units v ≤ units one) × IsMean cur s p v
unfolding point_value
point_value-IsMean cur s p unit h =
    let (up, eu) = get_elem?_of_lt cur (p - s) (omega (arith, h.inside)) in
    let (down, ed) = get_elem?_of_lt cur (p + s) h.inside in
    let (left, el) = get_elem?_of_lt cur (p - 1) (omega (arith, h.inside)) in
    let (right, er) = get_elem?_of_lt cur (p + 1) (omega (arith, h.inside, h.stride)) in
    let (centre, ec) = get_elem?_of_lt cur p (omega (arith, h.inside)) in
    let (vertical, fv, bv, sv) =
      fadd-IsSum (units one) 0x4000_0000 up down (omega arith) (omega arith) (omega arith)
        (omega arith) (unit _ _ eu) (unit _ _ ed) in
    let (horizontal, fh, bh, sh) =
      fadd-IsSum (units one) 0x4000_0000 left right (omega arith) (omega arith) (omega arith)
        (omega arith) (unit _ _ el) (unit _ _ er) in
    let (sm, fs, bs, ss) =
      fadd-IsSum (units 0x4000_0000) 0x4080_0000 vertical horizontal (omega arith) (omega arith)
        (omega arith) (omega arith) bv bh in
    let (scaled, fc, bc, sc) = fmul-IsProduct centre (unit _ _ ec) in
    let (v, fm, bm, sm') = fma-IsFused sm scaled bs bc in
    (
      v,
      rw (eu, ed, el, er, ec, fv, fh, fs, fc, fm) (refl {a = some v}),
      bm,
      record {
        up = up;
        down = down;
        left = left;
        right = right;
        centre = centre;
        vertical = vertical;
        horizontal = horizontal;
        sm = sm;
        scaled = scaled;
        at_up = eu;
        at_down = ed;
        at_left = el;
        at_right = er;
        at_centre = ec;
        sum_vertical = sv;
        sum_horizontal = sh;
        sum_both = ss;
        half = sc;
        mean = sm';
      },
    )
