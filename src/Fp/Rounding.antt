-- ===== src/Fp/Rounding.antt =====
-- Round to nearest, ties to even: what `round_even` computes is the one nearest integer.
use native.Mathlib.Decide.{ℕ_discrete}
use native.Mathlib.Nat.{div-add-mod, mul-le-mul_right, eq_of_mul-eq-mul_left}
use simtix.Base.{ℕ, ◌+◌, ◌*◌, ◌/◌, ◌%◌, ◌≤◌, ◌<◌, ◌≡◌, ◌⊎◌, arith, true, false, inl, inr}
use simtix.Fp.{round_even, rounds_up}

-- `m` is within half a unit of num / den, and even where two integers are equally near.
pub record IsNearestEven (num den m : ℕ) : Type 0 where
  pub low : 2 * num ≤ 2 * (m * den) + den
  pub high : 2 * (m * den) ≤ 2 * num + den
  pub tie_low : 2 * num ≡ 2 * (m * den) + den → m % 2 ≡ 0
  pub tie_high : 2 * (m * den) ≡ 2 * num + den → m % 2 ≡ 0

rounds_up_cases :
    (mi rem den : ℕ)
    → ((rounds_up mi rem den ≡ true) × (den ≤ 2 * rem) × (den ≡ 2 * rem → mi % 2 ≡ 1))
      ⊎ ((rounds_up mi rem den ≡ false) × (2 * rem ≤ den) × (den ≡ 2 * rem → mi % 2 ≡ 0))
unfolding rounds_up
rounds_up_cases mi rem den = grind arith

module _ (num den mi rem : ℕ) (split : den * mi + rem ≡ num) (small : rem < den) where
  up-IsNearestEven : den ≤ 2 * rem → (den ≡ 2 * rem → mi % 2 ≡ 1) → IsNearestEven num den (mi + 1)
  up-IsNearestEven h tie = record {
    low = omega arith;
    high = omega arith;
    tie_low = λ e. omega arith;
    tie_high = λ e. omega (arith, tie (omega arith));
  }

  down-IsNearestEven : 2 * rem ≤ den → (den ≡ 2 * rem → mi % 2 ≡ 0) → IsNearestEven num den mi
  down-IsNearestEven h tie = record {
    low = omega arith;
    high = omega arith;
    tie_low = λ e. omega (arith, tie (omega arith));
    tie_high = λ e. omega (arith, tie (omega arith));
  }

pub round_even-IsNearestEven : (num den : ℕ) → 0 < den → IsNearestEven num den (round_even num den)
unfolding round_even
round_even-IsNearestEven num den h = elim (rounds_up_cases (num / den) (num % den) den) [
  | inl up ↦ rw up.0 (
      up-IsNearestEven num den (num / den) (num % den) (div-add-mod num den) (omega arith) up.1
        up.2)
  | inr down ↦ rw down.0 (
      down-IsNearestEven num den (num / den) (num % den) (div-add-mod num den) (omega arith) down.1
        down.2)
]

module _ (num den m l : ℕ) (p : IsNearestEven num den m) where
  -- The products of a smaller and a larger integer are at least `den` apart.
  apart : (a b : ℕ) → a < b → a * den + den ≤ b * den
  apart a b h = grind arith

  -- No integer is nearer: one side at a time, `l` below `m` or above it.
  pub IsNearestEven_below : l < m → l * den ≤ num × (m * den + l * den ≤ 2 * num)
  IsNearestEven_below h = omega (arith, apart l m h, p.high)

  pub IsNearestEven_above : m < l → (num ≤ l * den) × (2 * num ≤ m * den + l * den)
  IsNearestEven_above h = omega (arith, apart m l h, p.low)

  pub IsNearestEven_tie_below : l < m → m * den + l * den ≡ 2 * num → m % 2 ≡ 0
  IsNearestEven_tie_below h e = p.tie_high (omega (arith, apart l m h, p.high))

  pub IsNearestEven_tie_above : m < l → m * den + l * den ≡ 2 * num → m % 2 ≡ 0
  IsNearestEven_tie_above h e = p.tie_low (omega (arith, apart m l h, p.low))

not_two :
    (num den m l : ℕ) → 0 < den → IsNearestEven num den m → IsNearestEven num den l → ¬ (m < l)
not_two num den m l h p q lt = elim (ℕ_discrete l (m + 1)) [
  | yes next ↦ odd_next (rw next at q)
  | no far ↦ omega (
    arith,
    apart num den m l p m (m + 1),
    apart num den m l p (m + 1) l (omega arith),
    p.low,
    q.high,
  )
]
  where
    odd_next : IsNearestEven num den (m + 1) → ⊥
    odd_next r = omega (
      arith,
      p.low,
      r.high,
      p.tie_low (omega (arith, r.high, p.low)),
      r.tie_high (omega (arith, r.high, p.low)),
    )

-- There is only one.
IsNearestEven-unique :
    (num den m l : ℕ) → 0 < den → IsNearestEven num den m → IsNearestEven num den l → m ≡ l
IsNearestEven-unique num den m l h p q =
    omega (arith, not_two num den m l h p q, not_two num den l m h q p)

-- Rounding reads only the quotient.
pub IsNearestEven-scale :
    (num den m c : ℕ) → 0 < c → IsNearestEven num den m → IsNearestEven (num * c) (den * c) m
IsNearestEven-scale num den m c h p = record {
  low = omega (arith, mul-le-mul_right c p.low);
  high = omega (arith, mul-le-mul_right c p.high);
  tie_low = λ e. p.tie_low (eq_of_mul-eq-mul_left c h _ _ (omega arith));
  tie_high = λ e. p.tie_high (eq_of_mul-eq-mul_left c h _ _ (omega arith));
}
