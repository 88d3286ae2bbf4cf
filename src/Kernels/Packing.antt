-- ===== src/Kernels/Packing.antt =====
-- The packing keeps the kernels apart and inside the instruction RAM.
use mathlib.Core.Option.{some-injective}
use simtix.Base.{
  ℕ, suc, ◌+◌, ◌*◌, ◌≤◌, ◌<◌, ◌≡◌, refl, ap, sym, ◌∙◌, ◌⊎◌, inl, inr, arith, List, [], ◌∷◌, Dict,
  lookup, insert, lookup-insert, some, Bool-cases, leb,
}
use simtix.Kernels.{
  Kernel, kernel_id, kernels, place_from, place_kernels, slot_of, iram_words, ceil_div,
}

infix 4 ◌∈ₖ◌
abbrev ◌∈ₖ◌ : Kernel → List Kernel → Type 0
k ∈ₖ [] = ⊥
k ∈ₖ (x ∷ xs) = (k ≡ x) ⊎ (k ∈ₖ xs)

-- The ids rise along the list, from `n` on.
abbrev pub Rising : ℕ → List Kernel → Type 0
Rising n [] = Unit
Rising n (k ∷ ks) = (n ≤ kernel_id k) × Rising (suc (kernel_id k)) ks

module _ (words : Kernel → ℕ) where
  abbrev pub placed : ℕ → List Kernel → Dict ℕ → Dict ℕ
  placed s ks slots = (place_from words s ks slots).1

  abbrev pub end : ℕ → List Kernel → Dict ℕ → ℕ
  end s ks slots = (place_from words s ks slots).0

  place_from_grows : (s : ℕ) (ks : List Kernel) (slots : Dict ℕ) → s ≤ end s ks slots
  unfolding place_from
  place_from_grows s [] slots = omega arith
  place_from_grows s (k ∷ ks) slots =
      omega (arith, place_from_grows (s + ceil_div (words k) 16) ks (insert (kernel_id k) s slots))

  -- Kernels that come later leave the earlier ones where they are.
  place_from_below :
      (i n s : ℕ) (ks : List Kernel) (slots : Dict ℕ)
      → i < n
      → Rising n ks
      → lookup i (placed s ks slots) ≡ lookup i slots
  unfolding place_from
  place_from_below i n s [] slots h r = refl
  place_from_below i n s (k ∷ ks) slots h r =
      place_from_below i (suc (kernel_id k)) _ ks _ (omega (arith, r.0)) r.1
      ∙ ground (arith, lookup-insert i (kernel_id k) s slots, r.0)

  pub place_from_first :
      (k : Kernel) (s : ℕ) (ks : List Kernel) (slots : Dict ℕ)
      → Rising (suc (kernel_id k)) ks
      → slot_of (placed s (k ∷ ks) slots) k ≡ some s
  unfolding place_from
  place_from_first k s ks slots r =
      place_from_below (kernel_id k) (suc (kernel_id k)) _ ks _ (omega arith) r
      ∙ ground (arith, lookup-insert (kernel_id k) (kernel_id k) s slots)

  -- A kernel of the list gets a slot behind the start, and ends before the end.
  place_from_slot :
      (k : Kernel) (n s : ℕ) (ks : List Kernel) (slots : Dict ℕ)
      → Rising n ks
      → k ∈ₖ ks
      → (t : ℕ) × (slot_of (placed s ks slots) k ≡ some t)
        × (s ≤ t)
        × (16 * t + words k ≤ 16 * end s ks slots)
  unfolding place_from
  place_from_slot k n s [] slots r m = absurd m
  place_from_slot k n s (x ∷ ks) slots r (inl here) = (
    s,
    ap (slot_of (placed s (x ∷ ks) slots)) here ∙ place_from_first x s ks slots r.1,
    omega arith,
    omega (
      arith,
      ap words here,
      place_from_grows (s + ceil_div (words x) 16) ks (insert (kernel_id x) s slots),
    ),
  )
  place_from_slot k n s (x ∷ ks) slots r (inr there) =
      let (t, e, lo, hi) =
        place_from_slot k (suc (kernel_id x)) (s + ceil_div (words x) 16) ks
          (insert (kernel_id x) s slots) r.1 there in
      (t, e, omega arith, hi)

  Rising-mem : (k : Kernel) (n : ℕ) (ks : List Kernel) → Rising n ks → k ∈ₖ ks → n ≤ kernel_id k
  Rising-mem k n [] r m = absurd m
  Rising-mem k n (x ∷ ks) r (inl here) = omega (arith, ap kernel_id here, r.0)
  Rising-mem k n (x ∷ ks) r (inr there) =
      omega (arith, r.0, Rising-mem k (suc (kernel_id x)) ks r.1 there)

  place_from_apart :
      (k j : Kernel) (n s a b : ℕ) (ks : List Kernel) (slots : Dict ℕ)
      → Rising n ks
      → k ∈ₖ ks
      → j ∈ₖ ks
      → kernel_id k < kernel_id j
      → slot_of (placed s ks slots) k ≡ some a
      → slot_of (placed s ks slots) j ≡ some b
      → 16 * a + words k ≤ 16 * b
  unfolding place_from
  place_from_apart k j n s a b [] slots r mk mj lt ea eb = absurd mk
  place_from_apart k j n s a b (x ∷ ks) slots r (inl hk) (inl hj) lt ea eb =
      omega (arith, ap kernel_id hk, ap kernel_id hj)
  place_from_apart k j n s a b (x ∷ ks) slots r (inl hk) (inr mj) lt ea eb =
      let (t, e, lo, hi) =
        place_from_slot j (suc (kernel_id x)) (s + ceil_div (words x) 16) ks
          (insert (kernel_id x) s slots) r.1 mj in
      let at_start : a ≡ s =
        some-injective _ _ (
          sym ea ∙ ap (slot_of (placed s (x ∷ ks) slots)) hk ∙ place_from_first x s ks slots r.1) in
      let same : b ≡ t = some-injective _ _ (sym eb ∙ e) in omega (arith, ap words hk)
  place_from_apart k j n s a b (x ∷ ks) slots r (inr mk) (inl hj) lt ea eb =
      omega (arith, Rising-mem k (suc (kernel_id x)) ks r.1 mk, ap kernel_id hj)
  place_from_apart k j n s a b (x ∷ ks) slots r (inr mk) (inr mj) lt ea eb =
      place_from_apart k j (suc (kernel_id x)) (s + ceil_div (words x) 16) a b ks
        (insert (kernel_id x) s slots) r.1 mk mj lt ea eb

mem-kernels : (k : Kernel) → k ∈ₖ kernels
mem-kernels Kernel.gemm = ground arith
mem-kernels _ = ground arith

place_kernels_inv :
    (words : Kernel → ℕ) (slots : Dict ℕ)
    → place_kernels words ≡ some slots
    → (16 * end words 0 kernels [] ≤ iram_words) × (placed words 0 kernels [] ≡ slots)
unfolding place_kernels
place_kernels_inv words slots h = elim (Bool-cases (leb (16 * end words 0 kernels []) iram_words)) [
  | inl fits ↦ (ground arith, some-injective _ _ (rw fits at h))
  | inr large ↦ cc
]

pub Rising-kernels : Rising 0 kernels
Rising-kernels = omega arith

-- Each kernel has a slot and ends within the instruction RAM, and a kernel that is earlier in
-- KERNELS ends before a later one begins.
pub record IsPacked (words : Kernel → ℕ) (slots : Dict ℕ) : Type 0 where
  pub inside : (k : Kernel) → (t : ℕ) × (slot_of slots k ≡ some t) × (16 * t + words k ≤ iram_words)
  pub apart :
      (k j : Kernel) (a b : ℕ)
      → kernel_id k < kernel_id j
      → slot_of slots k ≡ some a
      → slot_of slots j ≡ some b
      → 16 * a + words k ≤ 16 * b

-- Where `place_kernels` passes its assertion, every kernel has a slot from which on all its words fit
-- in the instruction RAM, and no two kernels overlap.
pub place_kernels-IsPacked :
    (words : Kernel → ℕ) (slots : Dict ℕ) → place_kernels words ≡ some slots → IsPacked words slots
place_kernels-IsPacked words slots h =
    let (fits, e) = place_kernels_inv words slots h in
    rw (← e) (record {
      inside = λ k.
          let (t, et, lo, hi) =
            place_from_slot words k 0 0 kernels [] Rising-kernels (mem-kernels k) in
          (t, et, omega (arith, hi, fits));
      apart = λ k j a b.
          place_from_apart words k j 0 0 a b kernels [] Rising-kernels (mem-kernels k)
            (mem-kernels j);
    })
