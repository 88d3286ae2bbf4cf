-- ===== src/Fp/Correct.antt =====
-- `fr2f` is correct rounding: no word is nearer to the fraction, of two words equally near the
-- result is the even one, and it fails only above the largest finite word.
use native.Mathlib.Nat.{
  lt_of_mul-lt-mul_right, mul-le-mul_right, mul-lt-mul_of_pos_right, eq_of_mul-eq-mul_left,
}
use native.Mathlib.Decide.{ℕ_discrete}
use mathlib.Core.Path.{subst}
use mathlib.Core.Option.{some-injective}
use simtix.Base.{
  ℕ, ◌+◌, ◌*◌, ◌%◌, ◌^◌, ◌≤◌, ◌<◌, ◌≡◌, ◌≢◌, refl, ap, sym, ◌∙◌, ◌⊎◌, arith, inl, inr, Bool, ltb,
  true, false, some, if◌then◌else◌, ==_ne,
}
use simtix.Base.Int.{negsuc, sub_ℕ}
use simtix.Base.Pow.{pow_pos}
use simtix.Fp.{
  Fraction, magnitude, fr2f, sign_field, exponent_field, assemble, mantissa, exponent, max_ℤ,
}
use simtix.Fp.Scaled.{Scaled, fr2f_step}
use simtix.Fp.Units.{units, IsWordOf, assemble-IsWordOf}
use simtix.Fp.Nearest.{
  apart, gap, is_negative, distance, nearest_magnitude, nearest_magnitude_tie, nearest_multiple,
}

-- The word `b` is the fraction `x` rounded to nearest, ties to even.
pub record IsNearestWord (x : Fraction) (b : ℕ) : Type 0 where
  pub word : b < 2 ^ 32
  pub finite : exponent_field b < 255
  pub sign : sign_field b ≡ (if is_negative x.num then 1 else 0)
  pub nearest : (c : ℕ) → distance x b ≤ distance x c
  pub tie_even : (c : ℕ) → units c ≢ units b → distance x c ≡ distance x b → b % 2 ≡ 0

gap_ge : (s t : Bool) (a v w : ℕ) → w ≤ apart a v → w ≤ a → w ≤ gap s t a v
gap_ge true true a v w h l = h
gap_ge true false a v w h l = omega arith
gap_ge false true a v w h l = omega arith
gap_ge false false a v w h l = h

gap_tie : (s t : Bool) (a v w : ℕ) → w ≤ apart a v → w ≤ a → gap s t a v ≡ w → apart a v ≡ w
gap_tie true true a v w h l e = e
gap_tie true false a v w h l e = omega arith
gap_tie false true a v w h l e = omega arith
gap_tie false false a v w h l e = e

module _ (n d k m : ℕ) (p : Scaled n d k m) (hd : 0 < d) where
  scaled_mantissa : (m ≤ 2 ^ 24) × ((k ≡ 0) ⊎ (2 ^ 23 ≤ m))
  scaled_mantissa = (
    omega (arith, top),
    elim p.binade [ inl least ↦ inl least | inr full ↦ inr (omega (arith, bottom full)) ],
  )
    where
      top : 2 * m < 2 ^ 25 + 1
      top = lt_of_mul-lt-mul_right (d * 2 ^ k) (omega (arith, p.below, p.nearest.high))

      bottom : 2 ^ 23 * (d * 2 ^ k) ≤ n * 2 ^ 149 → 2 ^ 24 < 2 * m + 2
      bottom full =
          lt_of_mul-lt-mul_right (d * 2 ^ k)
            (omega (arith, full, p.nearest.low, mul-lt-mul_of_pos_right hd (pow_pos k)))

fr2f_positive :
    (x : Fraction) (k : ℕ)
    → 0 < magnitude x.num
    → max_ℤ (exponent (magnitude x.num) x.den) (negsuc 125) ≡ sub_ℕ k 126
    → fr2f x
      ≡ assemble (is_negative x.num) (mantissa (magnitude x.num) x.den (sub_ℕ k 126)) (sub_ℕ k 126)
unfolding fr2f
fr2f_positive x k h e = rw (==_ne (magnitude x.num) 0 (omega arith), e) refl

pub fr2f_zero : (x : Fraction) → magnitude x.num ≡ 0 → fr2f x ≡ some 0
unfolding fr2f
fr2f_zero x h = rw h refl

zero_distance : (x : Fraction) → magnitude x.num ≡ 0 → distance x 0 ≡ 0
unfolding distance
zero_distance x h = rw h (zero_gap (is_negative x.num))
  where
    zero_gap : (s : Bool) → gap s false 0 (0 * x.den) ≡ 0
    zero_gap true = omega arith
    zero_gap false = omega arith

zero-IsNearestWord : (x : Fraction) → magnitude x.num ≡ 0 → IsNearestWord x 0
unfolding distance
zero-IsNearestWord x h = record {
  word = omega arith;
  finite = omega arith;
  sign = ground arith;
  nearest = λ c. rw (zero_distance x h) (omega arith);
  tie_even = λ c ne e. refl;
}

sign_test : (s : Bool) (v : ℕ) → v ≡ (if s then 1 else 0) → ltb 0 v ≡ s
sign_test true v e = ground arith
sign_test false v e = ground arith

gap_self : (s : Bool) (a v : ℕ) → gap s s a v ≡ apart a v
gap_self true a v = refl
gap_self false a v = refl

module _ (x : Fraction) (k m b : ℕ) (hd : 0 < x.den) (p : Scaled (magnitude x.num) x.den k m)
    (w : IsWordOf (is_negative x.num) m k b) where
  abbrev unit_num : ℕ
  unit_num = magnitude x.num * 2 ^ 149

  abbrev result : ℕ
  result = apart unit_num (m * (x.den * 2 ^ k))

  units_den : units b * x.den ≡ m * (x.den * 2 ^ k)
  units_den = ap (λ (t : ℕ). t * x.den) w.magnitude ∙ omega arith

  distance_word : distance x b ≡ result
  unfolding distance
  distance_word =
      rw (sign_test (is_negative x.num) (sign_field b) w.sign, units_den)
        (gap_self (is_negative x.num) unit_num (m * (x.den * 2 ^ k)))

  result-le : result ≤ unit_num
  result-le = omega (arith, nearest_multiple unit_num (x.den * 2 ^ k) m p.nearest 0)

  word-IsNearestWord : IsNearestWord x b
  unfolding distance
  word-IsNearestWord = record {
    word = w.word;
    finite = w.finite;
    sign = w.sign;
    nearest = λ c.
        rw distance_word (
          gap_ge _ _ unit_num (units c * x.den) result (nearest_magnitude _ _ k m p hd c)
            result-le);
    tie_even = λ c ne e.
        w.parity
        ∙ nearest_magnitude_tie _ _ k m p hd c
            (λ same. ne (eq_of_mul-eq-mul_left x.den hd _ _ (omega (arith, same, units_den))))
            (sym (
              gap_tie _ _ unit_num (units c * x.den) result (nearest_magnitude _ _ k m p hd c)
                result-le (e ∙ distance_word)));
  }

abbrev IsRounded : Fraction → Type 0
IsRounded x =
    ((b : ℕ) → fr2f x ≡ some b → IsNearestWord x b)
    × (magnitude x.num * 2 ^ 149 ≤ units 0x7f7f_ffff * x.den → (b : ℕ) × (fr2f x ≡ some b))

returns : (x : Fraction) (b : ℕ) → fr2f x ≡ some b → IsNearestWord x b → IsRounded x
returns x b e p = (λ c e'. subst (IsNearestWord x) (some-injective _ _ (sym e ∙ e')) p, λ _. (b, e))

module _ (x : Fraction) (k m : ℕ) (hd : 0 < x.den) (p : Scaled (magnitude x.num) x.den k m) where
  not_overflow :
      magnitude x.num * 2 ^ 149 ≤ units 0x7f7f_ffff * x.den → ¬ (2 ^ 24 * 2 ^ 253 ≤ m * 2 ^ k)
  not_overflow fits large =
      omega (arith, nearest_magnitude _ _ k m p hd 0x7f7f_ffff, mul-le-mul_right x.den large)

  positive-IsRounded : fr2f x ≡ assemble (is_negative x.num) m (sub_ℕ k 126) → IsRounded x
  positive-IsRounded step =
      let (le, small) = scaled_mantissa _ _ k m p hd in
      elim (assemble-IsWordOf (is_negative x.num) m k le small) [
        | inl (b, made, w) ↦ returns x b (step ∙ made) (word-IsNearestWord x k m b hd p w)
        | inr (failed, large) ↦ (λ b e. cc, λ fits. absurd (not_overflow fits large))
      ]

fr2f-IsRounded : (x : Fraction) → 0 < x.den → IsRounded x
fr2f-IsRounded x hd = elim (ℕ_discrete (magnitude x.num) 0) [
  | yes zero_num ↦ returns x 0 (fr2f_zero x zero_num) (zero-IsNearestWord x zero_num)
  | no nonzero ↦
      let hn : 0 < magnitude x.num = omega arith in
      let (k, clamped, p) = fr2f_step (magnitude x.num) x.den hn hd in
      positive-IsRounded x k _ hd p (fr2f_positive x k hn clamped)
]

-- Whatever word `fr2f` returns for a fraction with a positive denominator is a finite FP32 word with the fraction's sign, no
-- word is nearer to the fraction, and of two words equally near the result is the even one.
pub fr2f-IsNearestWord : (x : Fraction) (b : ℕ) → 0 < x.den → fr2f x ≡ some b → IsNearestWord x b
fr2f-IsNearestWord x b hd e = (fr2f-IsRounded x hd).0 b e

-- For every fraction with a positive denominator whose magnitude is at most the largest finite FP32 word, `fr2f` returns a
-- word: the assertion against overflow cannot fail there.
pub fr2f_total :
    (x : Fraction)
    → 0 < x.den
    → magnitude x.num * 2 ^ 149 ≤ units 0x7f7f_ffff * x.den
    → (b : ℕ) × (fr2f x ≡ some b)
fr2f_total x hd fits = (fr2f-IsRounded x hd).1 fits
