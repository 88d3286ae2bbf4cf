-- ===== src/Kernels/Tight.antt =====
-- The packing wastes no slot, and fails only where the images do not fit.
use mathlib.Core.Option.{some-injective}
use simtix.Base.{
  ℕ, zero, suc, ◌+◌, ◌*◌, ◌/◌, ◌%◌, ◌≤◌, ◌<◌, ◌≡◌, refl, ap, sym, ◌∙◌, ◌⊎◌, inl, inr, arith, List,
  [], ◌∷◌, Dict, none, some, Bool-cases, leb, ◌==◌, if◌then◌else◌, get_elem?, take, insert,
}
use simtix.Kernels.{
  Kernel, kernel_id, kernels, place_from, place_kernels, slot_of, iram_words, ceil_div,
}
use simtix.Kernels.Packing.{Rising, Rising-kernels, placed, end, place_from_first}

-- The slots of 16 words that an image of `n` words takes: the full ones, and one for a rest.
abbrev slots_of : ℕ → ℕ
slots_of n = n / 16 + (if n % 16 == 0 then 0 else 1)

-- The slots of all the images of a list.
unfoldable pub total_slots : (Kernel → ℕ) → List Kernel → ℕ
total_slots words [] = 0
total_slots words (k ∷ ks) = slots_of (words k) + total_slots words ks

-- The kernels that stand before a kernel in KERNELS.
abbrev pub before : Kernel → List Kernel
before k = take (kernel_id k) kernels

ceil_div-slots_of : (n : ℕ) → ceil_div n 16 ≡ slots_of n
ceil_div-slots_of n = ground arith

module _ (words : Kernel → ℕ) where
  end-total_slots :
      (s : ℕ) (ks : List Kernel) (slots : Dict ℕ) → end words s ks slots ≡ s + total_slots words ks
  unfolding place_from total_slots
  end-total_slots s [] slots = omega arith
  end-total_slots s (k ∷ ks) slots = omega (
    arith,
    end-total_slots (s + ceil_div (words k) 16) ks (insert (kernel_id k) s slots),
    ceil_div-slots_of (words k),
  )

  -- The kernel at a place begins behind the slots of those before it.
  slot_at :
      (i n s : ℕ) (k : Kernel) (ks : List Kernel) (slots : Dict ℕ)
      → Rising n ks
      → get_elem? ks i ≡ some k
      → slot_of (placed words s ks slots) k ≡ some (s + total_slots words (take i ks))
  unfolding place_from total_slots
  slot_at i n s k [] slots r e = cc
  slot_at zero n s k (x ∷ ks) slots r e =
      let same : x ≡ k = some-injective x k e in
      let here = place_from_first words x s ks slots r.1 in
      ap (slot_of (placed words s (x ∷ ks) slots)) (sym same) ∙ here ∙ ap some (omega arith)
  slot_at (suc i) n s k (x ∷ ks) slots r e =
      slot_at i (suc (kernel_id x)) (s + ceil_div (words x) 16) k ks (insert (kernel_id x) s slots)
        r.1 e
      ∙ ap some (omega (arith, ceil_div-slots_of (words x)))

kernels-at : (k : Kernel) → get_elem? kernels (kernel_id k) ≡ some k
kernels-at Kernel.gemm = refl
kernels-at _ = refl

-- For all sizes of the images: either all their slots, each image's words divided by 16 and rounded up,
-- fit the instruction RAM, and `place_kernels` gives every kernel the slot right behind those of the
-- kernels before it in KERNELS; or they do not fit, and its assertion fails.
pub place_kernels_lem :
    (words : Kernel → ℕ)
    → ((16 * total_slots words kernels ≤ iram_words)
        × (slots : Dict ℕ) × (place_kernels words ≡ some slots)
        × ((k : Kernel) → slot_of slots k ≡ some (total_slots words (before k))))
      ⊎ ((iram_words < 16 * total_slots words kernels) × (place_kernels words ≡ none))
unfolding place_kernels
place_kernels_lem words =
    let total = end-total_slots words 0 kernels [] in
    elim (Bool-cases (leb (16 * end words 0 kernels []) iram_words)) [
      | inl fits ↦ inl (
        ground (arith, total, fits),
        placed words 0 kernels [],
        rw fits refl,
        λ k.
            slot_at words (kernel_id k) 0 0 k kernels [] Rising-kernels (kernels-at k)
            ∙ ap some (omega arith),
      )
      | inr large ↦ inr (ground (arith, total, large), rw large refl)
    ]
