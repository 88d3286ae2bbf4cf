-- ===== src/Fp/Scaled.antt =====
-- The rounding step of `fr2f` in units of 2^-149, the least subnormal, where no exponent is
-- negative: a positive fraction n / d is n * 2^149 / d units, and the last mantissa bit at the
-- exponent k - 126 is 2^k units.
use native.Mathlib.Decide.{dec_le, dec_lt}
use native.Mathlib.Nat.{mul-le-mul_right, mul-lt-mul_of_pos_right, mul-le-mul_left}
use simtix.Base.{
  ℕ, ◌+◌, ◌-◌, ◌*◌, ◌^◌, ◌≤◌, ◌<◌, ◌≡◌, refl, ◌⊎◌, arith, suc, inl, inr, lt→ltb, le→ltb,
}
use simtix.Base.Int.{ℤ, pos, negsuc, sub_ℕ, ◌-ℤ◌, sub_ℕ_pos, sub_ℕ_neg}
use simtix.Base.Pow.{pow_pos, pow_mono, pow_split}
use simtix.Fp.{exponent, mantissa, max_ℤ, round_even}
use simtix.Fp.Binade.{InBinade, exponent-InBinade}
use simtix.Fp.Rounding.{IsNearestEven, round_even-IsNearestEven, IsNearestEven-scale}

q_low : (k : ℕ) → k < 149 → sub_ℕ k 126 -ℤ pos 23 ≡ negsuc (148 - k)
unfolding ◌-ℤ◌
q_low k h = ground arith

q_high : (k : ℕ) → 149 ≤ k → sub_ℕ k 126 -ℤ pos 23 ≡ pos (k - 149)
unfolding ◌-ℤ◌
q_high k h = ground arith

mantissa_low :
    (n d k : ℕ) → k < 149 → mantissa n d (sub_ℕ k 126) ≡ round_even (n * 2 ^ suc (148 - k)) d
unfolding mantissa
mantissa_low n d k h = rw (q_low k h) (rw (lt→ltb 0 (0 + suc (148 - k)) (omega arith)))

mantissa_high :
    (n d k : ℕ) → 149 ≤ k → mantissa n d (sub_ℕ k 126) ≡ round_even n (d * 2 ^ (k - 149))
unfolding mantissa
mantissa_high n d k h = rw (q_high k h) (rw (le→ltb (k - 149 + 0) 0 (omega arith)))

-- At the exponent k - 126 the mantissa is the nearest multiple of 2^k units.
mantissa-IsNearestEven :
    (n d k : ℕ) → 0 < d → IsNearestEven (n * 2 ^ 149) (d * 2 ^ k) (mantissa n d (sub_ℕ k 126))
mantissa-IsNearestEven n d k h = elim (dec_lt k 149) [
  | yes low ↦
      let r = round_even-IsNearestEven (n * 2 ^ suc (148 - k)) d h in
      rw (mantissa_low n d k low, ← pow_split n (suc (148 - k)) k 149 (omega arith))
        (IsNearestEven-scale (n * 2 ^ suc (148 - k)) d _ (2 ^ k) (pow_pos k) r)
  | no high ↦
      let r =
        round_even-IsNearestEven n (d * 2 ^ (k - 149))
          (omega (arith, mul-le-mul_left d (pow_pos (k - 149)))) in
      rw (mantissa_high n d k (omega arith), ← pow_split d (k - 149) 149 k (omega arith))
        (IsNearestEven-scale n (d * 2 ^ (k - 149)) _ (2 ^ 149) (pow_pos 149) r)
]

-- A fraction in the binade of its exponent, or below the least normal one.
pub record Scaled (n d k m : ℕ) : Type 0 where
  pub binade : (k ≡ 0) ⊎ (2 ^ 23 * (d * 2 ^ k) ≤ n * 2 ^ 149)
  pub below : n * 2 ^ 149 < 2 ^ 24 * (d * 2 ^ k)
  pub nearest : IsNearestEven (n * 2 ^ 149) (d * 2 ^ k) m

-- `max(e, -126)`: either e is k - 126 and stays, or it is below -126.
clamp_cases :
    (e : ℤ)
    → ((k : ℕ) × (e ≡ sub_ℕ k 126) × (max_ℤ e (negsuc 125) ≡ sub_ℕ k 126))
      ⊎ ((j : ℕ) × (126 ≤ j) × (e ≡ negsuc j) × (max_ℤ e (negsuc 125) ≡ sub_ℕ 0 126))
clamp_cases (pos p) = inl (p + 126, ground arith, ground arith)
clamp_cases (negsuc j) = elim (dec_lt j 126) [
  | yes low ↦ inl (125 - j, ground arith, ground arith)
  | no high ↦ inr (j, omega arith, refl, ground arith)
]

times : (a b c : ℕ) → a ≤ b → a * 2 ^ c ≤ b * 2 ^ c
times a b c h = mul-le-mul_right (2 ^ c) h

binade_units :
    (n d k : ℕ)
    → InBinade n d (sub_ℕ k 126)
    → (2 ^ 23 * (d * 2 ^ k) ≤ n * 2 ^ 149) × (n * 2 ^ 149 < 2 ^ 24 * (d * 2 ^ k))
binade_units n d k = elim (dec_le 126 k) [
  | yes le ↦ rw (sub_ℕ_pos k 126 le) λ b. omega (
    arith,
    b.0,
    b.1,
    pow_split d (k - 126) 149 (k + 23) (omega arith),
    pow_split d k 23 (k + 23) refl,
  )
  | no gt ↦ rw (sub_ℕ_neg k 126 (omega arith)) λ b. omega (
    arith,
    times _ _ (k + 23) b.0,
    mul-lt-mul_of_pos_right b.1 (pow_pos (k + 23)),
    pow_split n (suc (126 - k - 1)) (k + 23) 149 (omega arith),
    pow_split d k 23 (k + 23) refl,
  )
]

below_units : (n d j : ℕ) → 126 ≤ j → InBinade n d (negsuc j) → n * 2 ^ 149 < 2 ^ 23 * d
below_units n d j h b = omega (arith, b.1, mul-le-mul_left n (pow_mono 127 (suc j) (omega arith)))

-- A positive fraction is rounded at some exponent k - 126, in its binade or at the least one.
pub fr2f_step :
    (n d : ℕ)
    → 0 < n
    → 0 < d
    → (k : ℕ) × (max_ℤ (exponent n d) (negsuc 125) ≡ sub_ℕ k 126)
      × Scaled n d k (mantissa n d (sub_ℕ k 126))
fr2f_step n d hn hd = elim (clamp_cases (exponent n d)) [
  | inl (k, e, clamped) ↦
      let b = binade_units n d k (rw e at (exponent-InBinade n d hn hd)) in
      (
        k,
        clamped,
        record { binade = inr b.0; below = b.1; nearest = mantissa-IsNearestEven n d k hd },
      )
  | inr (j, h, e, clamped) ↦
      let b = below_units n d j h (rw e at (exponent-InBinade n d hn hd)) in
      (
        0,
        clamped,
        record {
          binade = inl refl;
          below = omega (arith, b);
          nearest = mantissa-IsNearestEven n d 0 hd;
        },
      )
]
