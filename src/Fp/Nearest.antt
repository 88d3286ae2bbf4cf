-- ===== src/Fp/Nearest.antt =====
-- `fr2f` is correct rounding: no finite FP32 word is nearer to the fraction, and of two words
-- equally near the result is the even one.
use native.Mathlib.Nat.{le_of_lt, mul-lt-mul_of_pos_right, mul-le-mul_right}
use native.Mathlib.Decide.{dec_lt, dec_le}
use simtix.Base.{
  ℕ, ◌+◌, ◌-◌, ◌*◌, ◌%◌, ◌^◌, ◌≤◌, ◌<◌, ◌≡◌, ◌≢◌, ap, sym, ◌∙◌, ◌⊎◌, arith, suc, inl, inr, Bool,
  Bool-cases, ltb, ◌==◌, true, false,
}
use simtix.Base.Int.{ℤ, pos, ltb_ℤ}
use simtix.Base.Pow.{pow_suc, pow_mono, pow_pos, pow_split}
use simtix.Fp.{Fraction, magnitude, sign_field, exponent_field, mantissa_field}
use simtix.Fp.Rounding.{
  IsNearestEven, IsNearestEven_below, IsNearestEven_above, IsNearestEven_tie_below,
  IsNearestEven_tie_above,
}
use simtix.Fp.Scaled.{Scaled}
use simtix.Fp.Units.{units}

abbrev pub apart : ℕ → ℕ → ℕ
apart a b = (a - b) + (b - a)

-- The distance of two magnitudes with signs: their sum where the signs differ.
abbrev pub gap : Bool → Bool → ℕ → ℕ → ℕ
gap true true a b = apart a b
gap false false a b = apart a b
gap _ _ a b = a + b

abbrev pub is_negative : ℤ → Bool
is_negative v = ltb_ℤ v (pos 0)

-- The distance of a fraction from a finite word, in units of 2^-149 over the fraction's denominator.
unfoldable pub distance : Fraction → ℕ → ℕ
distance x b =
    gap (is_negative x.num) (ltb 0 (sign_field b)) (magnitude x.num * 2 ^ 149) (units b * x.den)

module _ (num den m : ℕ) (p : IsNearestEven num den m) where
  pub nearest_multiple : (l : ℕ) → apart num (m * den) ≤ apart num (l * den)
  nearest_multiple l = elim (dec_lt l m) [
    | yes lt ↦
        omega (arith, IsNearestEven_below num den m l p lt, mul-le-mul_right den (le_of_lt lt))
    | no ge ↦ elim (dec_lt m l) [
      | yes gt ↦
          omega (arith, IsNearestEven_above num den m l p gt, mul-le-mul_right den (le_of_lt gt))
      | no le ↦ let same : l ≡ m = omega arith in omega (arith, ap (λ (t : ℕ). t * den) same)
    ]
  ]

  nearest_tie : 0 < den → (l : ℕ) → l ≢ m → apart num (m * den) ≡ apart num (l * den) → m % 2 ≡ 0
  nearest_tie h l ne e = elim (dec_lt l m) [
    | yes lt ↦
        IsNearestEven_tie_below num den m l p lt
          (omega (arith, IsNearestEven_below num den m l p lt, mul-lt-mul_of_pos_right lt h))
    | no ge ↦
        let gt : m < l = omega arith in
        IsNearestEven_tie_above num den m l p gt
          (omega (arith, IsNearestEven_above num den m l p gt, mul-lt-mul_of_pos_right gt h))
  ]

units_split : (b : ℕ) → (m : ℕ) × (k : ℕ) × (units b ≡ m * 2 ^ k) × (m < 2 ^ 24)
units_split b = elim (Bool-cases (exponent_field b == 0)) [
  | inl least ↦ (mantissa_field b, 0, rw least (omega arith), omega arith)
  | inr normal ↦ (2 ^ 23 + mantissa_field b, exponent_field b - 1, rw normal, omega arith)
]

-- Rounding at an exponent: no other word's magnitude is nearer.
module _ (n d k m : ℕ) (p : Scaled n d k m) (hd : 0 < d) where
  abbrev last_place : ℕ
  last_place = d * 2 ^ k

  small_word :
      (l j : ℕ)
      → l < 2 ^ 24
      → j < k
      → (l * 2 ^ j * d < 2 ^ 23 * last_place) × (2 ^ 23 * last_place ≤ n * 2 ^ 149)
  small_word l j h below = (
    omega (arith, mul-lt-mul_of_pos_right {n = 2 ^ 23 * 2 ^ k} scaled hd),
    omega (arith, p.binade),
  )
    where
      scaled : l * 2 ^ j < 2 ^ 23 * 2 ^ k
      scaled =
          omega (arith, mul-lt-mul_of_pos_right h (pow_pos j), pow_suc j, pow_mono (suc j) k below)

  -- A word is a multiple of the last place, or is smaller than the least fraction of the binade.
  multiple_or_small :
      (b : ℕ)
      → ((l : ℕ) × (units b * d ≡ l * last_place))
        ⊎ ((units b * d < 2 ^ 23 * last_place) × (2 ^ 23 * last_place ≤ n * 2 ^ 149))
  multiple_or_small b =
      let (l, j, e, h) = units_split b in
      elim (dec_le k j) [
        | yes le ↦ inl (
          l * 2 ^ (j - k),
          ap (λ (t : ℕ). t * d) (e ∙ sym (pow_split l (j - k) k j (omega arith))) ∙ omega arith,
        )
        | no gt ↦ inr (rw e (small_word l j h (omega arith)))
      ]

  pub nearest_magnitude :
      (b : ℕ) → apart (n * 2 ^ 149) (m * last_place) ≤ apart (n * 2 ^ 149) (units b * d)
  nearest_magnitude b = elim (multiple_or_small b) [
    | inl (l, e) ↦ rw e (nearest_multiple (n * 2 ^ 149) last_place m p.nearest l)
    | inr (small, binade) ↦
        omega (arith, small, binade, nearest_multiple (n * 2 ^ 149) last_place m p.nearest (2 ^ 23))
  ]

  pub nearest_magnitude_tie :
      (b : ℕ)
      → units b * d ≢ m * last_place
      → apart (n * 2 ^ 149) (m * last_place) ≡ apart (n * 2 ^ 149) (units b * d)
      → m % 2 ≡ 0
  nearest_magnitude_tie b ne tie = elim (multiple_or_small b) [
    | inl (l, e) ↦
        nearest_tie (n * 2 ^ 149) last_place m p.nearest
          (omega (arith, mul-lt-mul_of_pos_right hd (pow_pos k))) l
          (λ same. ne (e ∙ ap (λ (t : ℕ). t * last_place) same)) (rw e at tie)
    | inr (small, binade) ↦ absurd (
        omega
          (arith, small, binade, nearest_multiple (n * 2 ^ 149) last_place m p.nearest (2 ^ 23)))
  ]
