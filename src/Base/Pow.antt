-- ===== src/Base/Pow.antt =====
-- Powers of two, and the bit length of a number.
use Prim.Native.Nat.{ℕ, zero, suc, ◌+◌, ◌*◌, ◌/◌, ◌^◌, ◌≤◌, ◌<◌}
use mathlib.Core.Path.{◌≡◌, refl, ap, sym, ◌∙◌}
use mathlib.Core.Bool.{true, false}
use native.Mathlib.Omega.{arith}
use native.Mathlib.Nat.{pow-suc, zero-add, mul_assoc, pow-le-pow_right}
use simtix.Base.Tests.{◌==◌}

pub pow_suc : (a : ℕ) → 2 ^ suc a ≡ 2 * 2 ^ a
pow_suc a = omega (arith, pow-suc 2 a)

pub pow_add : (a b : ℕ) → 2 ^ (a + b) ≡ 2 ^ a * 2 ^ b
pow_add zero b = simp zero-add (omega arith)
pow_add (suc a) b =
    let e : suc a + b ≡ suc (a + b) = omega arith in
    rw (e, pow_suc (a + b), pow_suc a, pow_add a b) (omega arith)

pub pow_split : (x a b c : ℕ) → a + b ≡ c → x * 2 ^ a * 2 ^ b ≡ x * 2 ^ c
pow_split x a b c e =
    mul_assoc x (2 ^ a) (2 ^ b)
    ∙ ap (λ (t : ℕ). x * t) (sym (pow_add a b) ∙ ap (λ (t : ℕ). 2 ^ t) e)

pub pow_pos : (a : ℕ) → 1 ≤ 2 ^ a
pow_pos zero = omega arith
pow_pos (suc a) = omega (arith, pow_suc a, pow_pos a)

pub pow_mono : (a b : ℕ) → a ≤ b → 2 ^ a ≤ 2 ^ b
pow_mono a b h = pow-le-pow_right (omega arith) h

-- `n.bit_length()`, the first argument the fuel.
pub bit_length_fuel : ℕ → ℕ → ℕ
bit_length_fuel zero n = 0
bit_length_fuel (suc fuel) n = elim (n == 0) [
  | true ↦ 0
  | false ↦ suc (bit_length_fuel fuel (n / 2))
]

unfoldable pub bit_length : ℕ → ℕ
unfolding bit_length_fuel
bit_length n = bit_length_fuel n n

bit_length_fuel_zero : (fuel n : ℕ) → n ≡ 0 → 2 ^ bit_length_fuel fuel n ≡ 1
unfolding bit_length_fuel
bit_length_fuel_zero zero n h = refl
bit_length_fuel_zero (suc fuel) n h = rw (h, bit_length_fuel) refl

pub bit_length_fuel_bounds :
    (fuel n : ℕ)
    → n ≤ fuel
    → (n < 2 ^ bit_length_fuel fuel n) × (0 < n → 2 ^ bit_length_fuel fuel n ≤ 2 * n)
unfolding bit_length_fuel
bit_length_fuel_bounds zero n h = omega arith
bit_length_fuel_bounds (suc fuel) n h = ground (
  arith,
  bit_length_fuel_bounds fuel (n / 2),
  bit_length_fuel_zero fuel (n / 2),
  pow_suc (bit_length_fuel fuel (n / 2)),
)

-- A number below `2 ^ bit_length` and, unless it is 0, at least half of that.
pub bit_length_bounds : (n : ℕ) → (n < 2 ^ bit_length n) × (0 < n → 2 ^ bit_length n ≤ 2 * n)
unfolding bit_length
bit_length_bounds n = bit_length_fuel_bounds n n (omega arith)
