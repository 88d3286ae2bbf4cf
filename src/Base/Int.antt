-- ===== src/Base/Int.antt =====
-- Python ints that may be negative, under the library's names for integers.
use Prim.Native.Nat.{ℕ, suc, ◌+◌, ◌-◌, ◌*◌, ◌%◌, ◌^◌, ◌≤◌, ◌<◌}
use mathlib.Core.Path.{◌≡◌, refl}
use mathlib.Core.Logic.{◌⊎◌, inl, inr}
use mathlib.Core.Bool.{Bool}
use mathlib.Core.List.{List, map}
use native.Mathlib.Omega.{arith}
use simtix.Base.Tests.{ltb, leb, ◌==◌, if◌then◌else◌, Bool-cases}

-- `negsuc n` is -(n + 1).
pub data ℤ : Type 0 where
  pos : ℕ → ℤ
  negsuc : ℕ → ℤ

abbrev pub pos_part : ℤ → ℕ
pos_part (pos n) = n
pos_part (negsuc n) = 0

abbrev pub neg_part : ℤ → ℕ
neg_part (pos n) = 0
neg_part (negsuc n) = suc n

-- a - b, as an integer.
abbrev pub sub_ℕ : ℕ → ℕ → ℤ
sub_ℕ a b = if leb b a then pos (a - b) else negsuc (b - a - 1)

infixl 65 ◌+ℤ◌ ◌-ℤ◌
infixl 70 ◌*ℤ◌
infix 50 ◌≤ℤ◌
unfoldable pub ◌+ℤ◌ : ℤ → ℤ → ℤ
a +ℤ b = sub_ℕ (pos_part a + pos_part b) (neg_part a + neg_part b)

unfoldable pub ◌-ℤ◌ : ℤ → ℤ → ℤ
a -ℤ b = sub_ℕ (pos_part a + neg_part b) (neg_part a + pos_part b)

unfoldable pub ◌*ℤ◌ : ℤ → ℤ → ℤ
a *ℤ b =
    sub_ℕ (pos_part a * pos_part b + neg_part a * neg_part b)
      (pos_part a * neg_part b + neg_part a * pos_part b)

abbrev pub ◌≤ℤ◌ : ℤ → ℤ → Type 0
a ≤ℤ b = pos_part a + neg_part b ≤ pos_part b + neg_part a

abbrev pub ltb_ℤ : ℤ → ℤ → Bool
ltb_ℤ a b = ltb (pos_part a + neg_part b) (pos_part b + neg_part a)

-- With these the operations can stay shut.
pub +ℤ_parts :
    (a b : ℤ)
    → pos_part (a +ℤ b) + neg_part a + neg_part b ≡ neg_part (a +ℤ b) + pos_part a + pos_part b
unfolding ◌+ℤ◌
+ℤ_parts a b = ground arith

pub -ℤ_parts :
    (a b : ℤ)
    → pos_part (a -ℤ b) + neg_part a + pos_part b ≡ neg_part (a -ℤ b) + pos_part a + neg_part b
unfolding ◌-ℤ◌
-ℤ_parts a b = ground arith

pub eq_of_parts : (a b : ℤ) → pos_part a + neg_part b ≡ pos_part b + neg_part a → a ≡ b
eq_of_parts a b h = ground arith

pub ruleset int_laws = (arith, +ℤ_parts, -ℤ_parts, eq_of_parts)

-- Numbers as ints.
abbrev pub ints : List ℕ → List ℤ
ints = map pos

abbrev pub word_mod : ℕ
word_mod = 2 ^ 32

-- `v & 0xFFFF_FFFF`: the 32-bit two's complement word of an int.
unfoldable pub to_word : ℤ → ℕ
to_word (pos n) = n % word_mod
to_word (negsuc n) = word_mod - 1 - n % word_mod

pub to_word-lt : (v : ℤ) → to_word v < word_mod
unfolding to_word
to_word-lt (pos n) = omega arith
to_word-lt (negsuc n) = omega arith

pub to_word-pos : (n : ℕ) → n < word_mod → to_word (pos n) ≡ n
unfolding to_word
to_word-pos n h = omega arith

pub sub_ℕ_pos : (a b : ℕ) → b ≤ a → sub_ℕ a b ≡ pos (a - b)
sub_ℕ_pos a b h = ground arith

pub sub_ℕ_neg : (a b : ℕ) → a < b → sub_ℕ a b ≡ negsuc (b - a - 1)
sub_ℕ_neg a b h = ground arith

pub suc-ℤ-one : (k : ℕ) → pos (suc k) -ℤ pos 1 ≡ pos k
suc-ℤ-one k = omega int_laws

pub negsuc-ℤ-one : (k : ℕ) → negsuc k -ℤ pos 1 ≡ negsuc (suc k)
negsuc-ℤ-one k = omega int_laws

infix 50 ◌<ℤ◌
abbrev pub ◌<ℤ◌ : ℤ → ℤ → Type 0
a <ℤ b = pos_part a + neg_part b < pos_part b + neg_part a

abbrev pub leb_ℤ : ℤ → ℤ → Bool
leb_ℤ a b = leb (pos_part a + neg_part b) (pos_part b + neg_part a)

abbrev pub eqb_ℤ : ℤ → ℤ → Bool
eqb_ℤ a b = pos_part a + neg_part b == pos_part b + neg_part a

-- `min(a, b)` and `max(a, b)`
unfoldable pub min_of : ℤ → ℤ → ℤ
min_of a b = if ltb_ℤ b a then b else a

unfoldable pub max_of : ℤ → ℤ → ℤ
max_of a b = if ltb_ℤ a b then b else a

-- `abs(a)`
abbrev pub abs_of : ℤ → ℤ
abs_of a = pos (pos_part a + neg_part a)

pub min_of_cases : (a b : ℤ) → ((min_of a b ≡ a) × (a ≤ℤ b)) ⊎ ((min_of a b ≡ b) × (b <ℤ a))
unfolding min_of
min_of_cases a b = elim (Bool-cases (ltb_ℤ b a)) [
  | inl lt ↦ rw lt (inr (refl, ground arith))
  | inr ge ↦ rw ge (inl (refl, ground arith))
]

pub max_of_cases : (a b : ℤ) → ((max_of a b ≡ a) × (b ≤ℤ a)) ⊎ ((max_of a b ≡ b) × (a <ℤ b))
unfolding max_of
max_of_cases a b = elim (Bool-cases (ltb_ℤ a b)) [
  | inl lt ↦ rw lt (inr (refl, ground arith))
  | inr ge ↦ rw ge (inl (refl, ground arith))
]
