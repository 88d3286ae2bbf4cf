-- ===== src/Fp/Binade.antt =====
-- `exponent` finds the binade: the power of two at or below a positive fraction.
use simtix.Base.{
  ℕ, ◌+◌, ◌-◌, ◌*◌, ◌^◌, ◌≤◌, ◌<◌, ◌≡◌, ap, arith, zero, suc, inl, inr, Bool-cases, ltb,
}
use simtix.Base.Int.{
  ℤ, pos, negsuc, pos_part, neg_part, sub_ℕ, ◌-ℤ◌, sub_ℕ_pos, sub_ℕ_neg, suc-ℤ-one, negsuc-ℤ-one,
}
use simtix.Base.Pow.{bit_length, bit_length_bounds, pow_add, pow_suc, pow_pos}
use native.Mathlib.Decide.{dec_le}
use native.Mathlib.Nat.{mul-le-mul_right, mul-lt-mul_of_pos_right}
use simtix.Fp.{exponent}

-- 2^e ≤ n / d < 2^(e + 1)
abbrev pub InBinade : ℕ → ℕ → ℤ → Type 0
InBinade n d e =
    (d * 2 ^ pos_part e ≤ n * 2 ^ neg_part e) × (n * 2 ^ neg_part e < 2 * (d * 2 ^ pos_part e))

-- The first guess, the difference of the bit lengths, is the exponent or one more.
abbrev InGuess : ℕ → ℕ → ℤ → Type 0
InGuess n d e =
    (d * 2 ^ pos_part e < 2 * (n * 2 ^ neg_part e))
    × (n * 2 ^ neg_part e < 2 * (d * 2 ^ pos_part e))

guess_of_lengths :
    (n d a b k : ℕ)
    → (n < 2 ^ a) × (2 ^ a ≤ 2 * n)
    → (d < 2 ^ b) × (2 ^ b ≤ 2 * d)
    → a ≡ b + k
    → (d * 2 ^ k < 2 * n) × (n < 2 * (d * 2 ^ k))
guess_of_lengths n d a b k hn hd e = omega (
  arith,
  ap (λ (x : ℕ). 2 ^ x) e,
  pow_add b k,
  mul-lt-mul_of_pos_right hd.0 (pow_pos k),
  mul-le-mul_right (2 ^ k) hd.1,
)

bit_lengths-InGuess : (n d : ℕ) → 0 < n → 0 < d → InGuess n d (sub_ℕ (bit_length n) (bit_length d))
bit_lengths-InGuess n d hn hd = elim (dec_le (bit_length d) (bit_length n)) [
  | yes le ↦ rw (sub_ℕ_pos (bit_length n) (bit_length d) le) (
      omega (
        arith,
        guess_of_lengths n d (bit_length n) (bit_length d) (bit_length n - bit_length d)
            (ln.0, ln.1 hn) (ld.0, ld.1 hd) (omega arith),
      ))
  | no gt ↦
      let k = bit_length d - bit_length n - 1 in
      rw (sub_ℕ_neg (bit_length n) (bit_length d) (omega arith)) (
        omega (
          arith,
          guess_of_lengths d n (bit_length d) (bit_length n) (suc k) (ld.0, ld.1 hd) (ln.0, ln.1 hn)
              (omega arith),
        ))
]
  where
    ln : (n < 2 ^ bit_length n) × (0 < n → 2 ^ bit_length n ≤ 2 * n)
    ln = bit_length_bounds n

    ld : (d < 2 ^ bit_length d) × (0 < d → 2 ^ bit_length d ≤ 2 * d)
    ld = bit_length_bounds d

lower_guess :
    (n d : ℕ) (e : ℤ)
    → InGuess n d e
    → n * 2 ^ neg_part e < d * 2 ^ pos_part e
    → InBinade n d (e -ℤ pos 1)
unfolding ◌-ℤ◌
lower_guess n d (pos zero) g h = omega arith
lower_guess n d (pos (suc k)) g h =
    rw (suc-ℤ-one k) (omega (arith, ap (λ (t : ℕ). d * t) (pow_suc k)))
lower_guess n d (negsuc k) g h =
    rw (negsuc-ℤ-one k) (omega (arith, ap (λ (t : ℕ). n * t) (pow_suc (suc k))))

pub exponent-InBinade : (n d : ℕ) → 0 < n → 0 < d → InBinade n d (exponent n d)
unfolding exponent
exponent-InBinade n d hn hd =
    let e = sub_ℕ (bit_length n) (bit_length d) in
    let g : InGuess n d e = bit_lengths-InGuess n d hn hd in
    elim (Bool-cases (ltb (n * 2 ^ neg_part e) (d * 2 ^ pos_part e))) [
      | inl below ↦ rw below (lower_guess n d e g (ground arith))
      | inr at ↦ rw at (ground arith, g.1)
    ]
