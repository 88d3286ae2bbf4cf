-- ===== src/Apps/Zbtest/Meaning.antt =====
-- The nine results are what the instructions mean.
use simtix.Base.{
  ℕ, ◌+◌, ◌*◌, ◌%◌, ◌/◌, ◌≤◌, ◌<◌, ◌≡◌, ◌⊎◌, inl, inr, List, [], ◌∷◌, ltb, ◌==◌, ◌^◌, if◌then◌else◌,
  arith,
}
use simtix.Base.Int.{ltb_ℤ, word_mod}
use simtix.Apps.Zbtest.{sx, results}

-- `m` and `n` are the operands in one order or the other.
abbrev Are : ℕ → ℕ → ℕ → ℕ → Type 0
Are x y m n = ((m ≡ x) × (n ≡ y)) ⊎ ((m ≡ y) × (n ≡ x))

-- `s` is the 32-bit word that is left of the sum `t` without its carries out.
abbrev IsWordOf : ℕ → ℕ → Type 0
IsWordOf s t = (s < 2 ^ 32) × (q : ℕ) × (t ≡ s + q * 2 ^ 32)

-- The order of words as signed numbers: the words with the sign bit come first, and those of one sign
-- are in the order of their bits.
abbrev IsSignedBelow : ℕ → ℕ → Type 0
IsSignedBelow m n =
    ((2 ^ 31 ≤ m) × (n < 2 ^ 31))
    ⊎ ((2 ^ 31 ≤ m) × (2 ^ 31 ≤ n) × (m ≤ n))
    ⊎ ((m < 2 ^ 31) × (n < 2 ^ 31) × (m ≤ n))

-- For 32-bit operands: each shNadd is what 32 bits hold of x, taken 2, 4 or 8 times, and y; min and
-- max, signed (by the sign bit) and unsigned, are the two operands in order; the two conditional zeros
-- share the first operand out, the whole of it to the one or the other by the low bit of the second.
abbrev pub IsZb : ℕ → ℕ → List ℕ → Type 0
IsZb x y (s1 ∷ s2 ∷ s3 ∷ mn ∷ mnu ∷ mx ∷ mxu ∷ ez ∷ nz ∷ []) =
    IsWordOf s1 (x + x + y)
    × IsWordOf s2 (x + x + x + x + y)
    × IsWordOf s3 (x + x + x + x + x + x + x + x + y)
    × (Are x y mn mx × IsSignedBelow mn mx)
    × (Are x y mnu mxu × (mnu ≤ mxu))
    × ((ez + nz ≡ x) × (ez ≡ x * (y % 2)))
IsZb x y _ = ⊥

signed_pair :
    (x y : ℕ)
    → x < word_mod
    → y < word_mod
    → let mn = if ltb_ℤ (sx x) (sx y) then x else y in
      let mx = if ltb_ℤ (sx y) (sx x) then x else y in Are x y mn mx × IsSignedBelow mn mx
unfolding sx
signed_pair x y hx hy = ground arith

unsigned_pair :
    (x y : ℕ)
    → let mn = if ltb x y then x else y in
      let mx = if ltb x y then y else x in Are x y mn mx × (mn ≤ mx)
unsigned_pair x y = ground arith

zeros :
    (x y : ℕ)
    → let ez = if y % 2 == 0 then 0 else x in
      let nz = if y % 2 == 1 then 0 else x in (ez + nz ≡ x) × (ez ≡ x * (y % 2))
zeros x y = elim (parity y) [
  | inl even ↦ rw (even) (omega arith, omega arith)
  | inr odd ↦ rw (odd) (omega arith, omega arith)
]
  where
    parity : (n : ℕ) → (n % 2 ≡ 0) ⊎ (n % 2 ≡ 1)
    parity n = ground arith

-- The nine expected words are the results of the nine instructions, for all 32-bit operands: each sum
-- is what 32 bits hold of twice, four or eight times x and y; min and max, by the sign bit and
-- unsigned, are the two operands in order; the two conditional zeros add up to x, and the first is
-- x times the low bit of y.
pub results-IsZb : (x y : ℕ) → x < word_mod → y < word_mod → IsZb x y (results x y)
unfolding results
results-IsZb x y hx hy = (
  sum (y + x * 2) (x + x + y) (omega arith),
  sum (y + x * 4) (x + x + x + x + y) (omega arith),
  sum (y + x * 8) (x + x + x + x + x + x + x + x + y) (omega arith),
  signed_pair x y hx hy,
  unsigned_pair x y,
  zeros x y,
)
  where
    sum : (t u : ℕ) → t ≡ u → IsWordOf (t % word_mod) u
    sum t u e = (omega arith, t / word_mod, omega (arith, e))
