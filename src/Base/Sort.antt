-- ===== src/Base/Sort.antt =====
-- Python's `sorted` on numbers.
use mathlib.Core.Logic.{◌⊎◌, inl, inr}
use Prim.Native.Nat.{ℕ, ◌≤◌, ◌+◌}
use mathlib.Core.Path.{◌≡◌}
use mathlib.Core.List.{List, [], ◌∷◌}
use native.Mathlib.Omega.{arith}
use simtix.Base.Tests.{leb, if◌then◌else◌, Bool-cases}
use simtix.Base.Lists.{◌∈◌, length}

unfoldable pub insert_sorted : ℕ → List ℕ → List ℕ
insert_sorted a [] = a ∷ []
insert_sorted a (x ∷ xs) = if leb a x then a ∷ x ∷ xs else x ∷ insert_sorted a xs

unfoldable pub sorted : List ℕ → List ℕ
unfolding insert_sorted
sorted [] = []
sorted (x ∷ xs) = insert_sorted x (sorted xs)

-- Every item below is at least `n`.
abbrev pub AllGe : ℕ → List ℕ → Type 0
AllGe n [] = Unit
AllGe n (x ∷ xs) = (n ≤ x) × AllGe n xs

abbrev pub IsSorted : List ℕ → Type 0
IsSorted [] = Unit
IsSorted (x ∷ xs) = AllGe x xs × IsSorted xs

pub mem-insert_sorted : (b a : ℕ) (xs : List ℕ) → b ∈ insert_sorted a xs → (b ≡ a) ⊎ (b ∈ xs)
unfolding insert_sorted
mem-insert_sorted b a [] m = m
mem-insert_sorted b a (x ∷ xs) m = ground (arith, mem-insert_sorted b a xs)

pub insert_sorted-mem : (b a : ℕ) (xs : List ℕ) → (b ≡ a) ⊎ (b ∈ xs) → b ∈ insert_sorted a xs
unfolding insert_sorted
insert_sorted-mem b a [] m = m
insert_sorted-mem b a (x ∷ xs) m = ground (arith, insert_sorted-mem b a xs)

pub mem-sorted : (b : ℕ) (xs : List ℕ) → b ∈ sorted xs → b ∈ xs
unfolding sorted
mem-sorted b [] m = m
mem-sorted b (x ∷ xs) m = ground (arith, mem-insert_sorted b x (sorted xs), mem-sorted b xs)

pub sorted-mem : (b : ℕ) (xs : List ℕ) → b ∈ xs → b ∈ sorted xs
unfolding sorted
sorted-mem b [] m = m
sorted-mem b (x ∷ xs) m = ground (arith, insert_sorted-mem b x (sorted xs), sorted-mem b xs)

AllGe-mono : (m n : ℕ) (xs : List ℕ) → m ≤ n → AllGe n xs → AllGe m xs
AllGe-mono m n [] h p = tt
AllGe-mono m n (x ∷ xs) h p = (omega arith, AllGe-mono m n xs h p.1)

insert_sorted-AllGe : (n a : ℕ) (xs : List ℕ) → n ≤ a → AllGe n xs → AllGe n (insert_sorted a xs)
unfolding insert_sorted
insert_sorted-AllGe n a [] h p = (h, tt)
insert_sorted-AllGe n a (x ∷ xs) h p = ground (arith, insert_sorted-AllGe n a xs)

insert_sorted-IsSorted : (a : ℕ) (xs : List ℕ) → IsSorted xs → IsSorted (insert_sorted a xs)
unfolding insert_sorted
insert_sorted-IsSorted a [] p = (tt, tt)
insert_sorted-IsSorted a (x ∷ xs) p = elim (Bool-cases (leb a x)) [
  | inl le ↦ rw le ((ground arith, AllGe-mono a x xs (ground arith) p.0), p)
  | inr gt ↦ rw gt (insert_sorted-AllGe x a xs (ground arith) p.0, insert_sorted-IsSorted a xs p.1)
]

pub sorted-IsSorted : (xs : List ℕ) → IsSorted (sorted xs)
unfolding sorted
sorted-IsSorted [] = tt
sorted-IsSorted (x ∷ xs) = insert_sorted-IsSorted x (sorted xs) (sorted-IsSorted xs)

length-insert_sorted : (a : ℕ) (xs : List ℕ) → length (insert_sorted a xs) ≡ length xs + 1
unfolding insert_sorted
length-insert_sorted a [] = omega arith
length-insert_sorted a (x ∷ xs) = elim (Bool-cases (leb a x)) [
  | inl le ↦ rw le (omega arith)
  | inr gt ↦ rw gt (omega (arith, length-insert_sorted a xs))
]

pub length-sorted : (xs : List ℕ) → length (sorted xs) ≡ length xs
unfolding sorted
length-sorted [] = omega arith
length-sorted (x ∷ xs) = omega (arith, length-insert_sorted x (sorted xs), length-sorted xs)
