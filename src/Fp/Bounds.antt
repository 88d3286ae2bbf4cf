-- ===== src/Fp/Bounds.antt =====
-- Bounds of FP32 results: an operation on bounded words returns a word, and a bounded one.
use native.Mathlib.Nat.{
  mul-le-mul_right, mul-le-mul, one-le-mul, mul-lt-mul_of_pos_right, le_of_mul-le-mul_right,
}
use native.Mathlib.Omega.{by_contra}
use native.Mathlib.Decide.{dec_lt}
use simtix.Base.{
  ℕ, ◌+◌, ◌-◌, ◌*◌, ◌^◌, ◌≤◌, ◌<◌, ◌≡◌, refl, ap, arith, Option, some, Bool, true, false, ltb,
  if◌then◌else◌, ==_ne,
}
use simtix.Base.Int.{ℤ, pos, negsuc, ◌+ℤ◌, ◌*ℤ◌}
use simtix.Base.Pow.{pow_mono}
use simtix.Fp.{
  Fraction, magnitude, fr2f, f2fr, add_fr, mul_fr, fadd, fmul, fma, exponent_field, mantissa_field,
  sign_field,
}
use simtix.Fp.Units.{units}
use simtix.Fp.Nearest.{apart, gap, is_negative, distance}
use simtix.Fp.Correct.{IsNearestWord, fr2f-IsNearestWord, fr2f_total}
use simtix.Fp.Value.{f2fr-IsValueOf, units-le-max, units_above, units_below, units_normal}

magnitude-mul : (a b : ℤ) → magnitude (a *ℤ b) ≡ magnitude a * magnitude b
unfolding ◌*ℤ◌
magnitude-mul (pos m) (pos n) = ground arith
magnitude-mul (pos m) (negsuc n) = ground arith
magnitude-mul (negsuc m) (pos n) = ground arith
magnitude-mul (negsuc m) (negsuc n) = ground arith

magnitude-add : (a b : ℤ) → magnitude (a +ℤ b) ≤ magnitude a + magnitude b
unfolding ◌+ℤ◌
magnitude-add a b = ground arith

-- The fraction is at most `bound` units of 2^-149.
abbrev AtMost : ℕ → Fraction → Type 0
AtMost bound x = magnitude x.num * 2 ^ 149 ≤ bound * x.den

add_fr-AtMost : (a b : ℕ) (x y : Fraction) → AtMost a x → AtMost b y → AtMost (a + b) (add_fr x y)
unfolding add_fr
add_fr-AtMost a b x y hx hy = omega (
  arith,
  magnitude-add (x.num *ℤ pos y.den) (y.num *ℤ pos x.den),
  magnitude-mul x.num (pos y.den),
  magnitude-mul y.num (pos x.den),
  mul-le-mul_right y.den hx,
  mul-le-mul_right x.den hy,
)

mul_fr-AtMost :
    (a b c : ℕ) (x y : Fraction)
    → a * b ≤ c * 2 ^ 149
    → AtMost a x
    → AtMost b y
    → AtMost c (mul_fr x y)
unfolding mul_fr
mul_fr-AtMost a b c x y h hx hy =
    le_of_mul-le-mul_right {k = 2 ^ 149}
      (omega
        (arith, magnitude-mul x.num y.num, mul-le-mul hx hy, mul-le-mul_right (x.den * y.den) h))
      (omega arith)

-- A word whose magnitude is below 2^128 is finite.
pub finite_of_units : (b : ℕ) → units b ≤ units 0x7f7f_ffff → exponent_field b < 255
finite_of_units b h = by_contra _ _ (λ big.
    omega
      (arith, h, units_above b (omega arith), pow_mono 254 (exponent_field b - 1) (omega arith)))

gap_same : (s : Bool) (a v : ℕ) → gap s s a v ≡ apart a v
gap_same true a v = refl
gap_same false a v = refl

-- The word with the sign of the fraction and the magnitude of `w`.
signed_word : Bool → ℕ → ℕ
signed_word s w = if s then 2 ^ 31 + w else w

signed_word_fields :
    (s : Bool) (w : ℕ)
    → w < 2 ^ 31
    → (units (signed_word s w) ≡ units w) × (ltb 0 (sign_field (signed_word s w)) ≡ s)
unfolding signed_word
signed_word_fields true w h = (
  let e : exponent_field (2 ^ 31 + w) ≡ exponent_field w = omega arith in
      let m : mantissa_field (2 ^ 31 + w) ≡ mantissa_field w = omega arith in rw (e, m) refl,
  ground arith,
)
signed_word_fields false w h = (refl, ground arith)

sign_test : (s : Bool) (v : ℕ) → v ≡ (if s then 1 else 0) → ltb 0 v ≡ s
sign_test true v e = ground arith
sign_test false v e = ground arith

module _ (x : Fraction) (b w slack : ℕ) (hd : 0 < x.den) (p : IsNearestWord x b)
    (hw : w < 2 ^ 31) where
  distance_signed :
      distance x (signed_word (is_negative x.num) w)
      ≡ apart (magnitude x.num * 2 ^ 149) (units w * x.den)
  unfolding distance
  distance_signed =
      let (u, s) = signed_word_fields (is_negative x.num) w hw in
      rw (s, u) (gap_same (is_negative x.num) _ _)

  distance_result : distance x b ≡ apart (magnitude x.num * 2 ^ 149) (units b * x.den)
  unfolding distance
  distance_result = rw (sign_test _ _ p.sign) (gap_same (is_negative x.num) _ _)

  -- A fraction at most a word's magnitude, or little above it, is not rounded above the word.
  rounded-le :
      AtMost (units w + slack) x
      → (units w < units b → units w + 2 * slack < units b)
      → units b ≤ units w
  rounded-le fits spaced = by_contra _ _ λ above.
      let far = mul-lt-mul_of_pos_right (spaced (omega arith)) hd in
      omega (
        arith,
        fits,
        far,
        p.nearest (signed_word (is_negative x.num) w),
        distance_signed,
        distance_result,
      )

-- The operation gives a word, the fraction `x` correctly rounded, of a magnitude at most `bound`.
pub record Rounds (o : Option ℕ) (x : Fraction) (bound : ℕ) : Type 0 where
  pub word : ℕ
  pub made : o ≡ some word
  pub nearest : IsNearestWord x word
  pub within : units word ≤ bound

-- A magnitude that rounding keeps: nothing up to `slack` above it is rounded beyond it.
pub record IsBarrier (w slack : ℕ) : Type 0 where
  pub positive : w < 2 ^ 31
  pub finite : units w + slack ≤ units 0x7f7f_ffff
  pub spaced : (b : ℕ) → exponent_field b < 255 → units w < units b → units w + 2 * slack < units b

-- With no slack every finite word is one.
pub word-IsBarrier : (w : ℕ) → w < 2 ^ 31 → exponent_field w < 255 → IsBarrier w 0
word-IsBarrier w h f = record {
  positive = h;
  finite = omega (arith, units-le-max w f);
  spaced = λ b fb more. omega arith;
}

-- 2^25, with a slack of 1.0: the next word is 2^25 + 4.
pub two_25-IsBarrier : IsBarrier 0x4c00_0000 (2 ^ 149)
two_25-IsBarrier = record { positive = omega arith; finite = omega arith; spaced = spaced }
  where
    spaced :
        (b : ℕ)
        → exponent_field b < 255
        → units 0x4c00_0000 < units b
        → units 0x4c00_0000 + 2 * 2 ^ 149 < units b
    spaced b f more = elim (dec_lt 152 (exponent_field b)) [
      | yes high ↦
          omega
            (arith, units_above b (omega arith), pow_mono 152 (exponent_field b - 1) (omega arith))
      | no low ↦ elim (dec_lt (exponent_field b) 152) [
        | yes lower ↦
            omega (arith, more, units_below b, pow_mono (exponent_field b) 151 (omega arith))
        | no same ↦
            let e : exponent_field b ≡ 152 = omega arith in
            omega (
              arith,
              more,
              units_normal b (==_ne (exponent_field b) 0 (omega arith)),
              ap (λ (t : ℕ). (2 ^ 23 + mantissa_field b) * 2 ^ (t - 1)) e,
            )
      ]
    ]

pub fr2f-Rounds :
    (x : Fraction) (w slack : ℕ)
    → 0 < x.den
    → IsBarrier w slack
    → AtMost (units w + slack) x
    → Rounds (fr2f x) x (units w)
fr2f-Rounds x w slack hd p fits =
    let (b, e) = fr2f_total x hd (omega (arith, fits, mul-le-mul_right x.den p.finite)) in
    let near = fr2f-IsNearestWord x b hd e in
    record {
      word = b;
      made = e;
      nearest = near;
      within = rounded-le x b w slack hd near p.positive fits (p.spaced b near.finite);
    }

-- The value of a word of bounded magnitude.
pub record IsBounded (bound b : ℕ) (x : Fraction) : Type 0 where
  pub made : f2fr b ≡ some x
  pub positive : 0 < x.den
  pub at_most : AtMost bound x

pub f2fr-IsBounded :
    (bound b : ℕ) → units b ≤ bound → exponent_field b < 255 → (x : Fraction) × IsBounded bound b x
f2fr-IsBounded bound b h finite =
    let (x, e, v) = f2fr-IsValueOf b finite in
    (
      x,
      record {
        made = e;
        positive = v.positive;
        at_most = omega (arith, v.exact, mul-le-mul_right x.den h);
      },
    )

module _ (a b w slack : ℕ) (barrier : IsBarrier w slack) (x y : ℕ) (xf yf : Fraction)
    (px : IsBounded a x xf) (py : IsBounded b y yf) where
  pub fadd-Rounds : a + b ≤ units w + slack → Rounds (fadd x y) (add_fr xf yf) (units w)
  unfolding fadd add_fr
  fadd-Rounds le =
      rw (px.made, py.made)
        (fr2f-Rounds (add_fr xf yf) w slack (one-le-mul px.positive py.positive) barrier (
          omega (
            arith,
            add_fr-AtMost a b xf yf px.at_most py.at_most,
            mul-le-mul_right (xf.den * yf.den) le,
          )))

  pub fmul-Rounds : a * b ≤ (units w + slack) * 2 ^ 149 → Rounds (fmul x y) (mul_fr xf yf) (units w)
  unfolding fmul mul_fr
  fmul-Rounds le =
      rw (px.made, py.made)
        (fr2f-Rounds (mul_fr xf yf) w slack (one-le-mul px.positive py.positive) barrier
          (mul_fr-AtMost a b (units w + slack) xf yf le px.at_most py.at_most))

  pub fma-Rounds :
      (c d z : ℕ) (zf : Fraction)
      → IsBounded d z zf
      → a * b ≤ c * 2 ^ 149
      → c + d ≤ units w + slack
      → Rounds (fma x y z) (add_fr (mul_fr xf yf) zf) (units w)
  unfolding fma add_fr mul_fr
  fma-Rounds c d z zf pz product sum =
      rw (px.made, py.made, pz.made)
        (fr2f-Rounds (add_fr (mul_fr xf yf) zf) w slack
          (one-le-mul (one-le-mul px.positive py.positive) pz.positive) barrier
          (omega (
            arith,
            add_fr-AtMost c d (mul_fr xf yf) zf
                (mul_fr-AtMost a b c xf yf product px.at_most py.at_most) pz.at_most,
            mul-le-mul_right (xf.den * yf.den * zf.den) sum,
          )))
