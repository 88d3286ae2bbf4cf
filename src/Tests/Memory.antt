-- ===== src/Tests/Memory.antt =====
-- An example of each result on the memory image, its files and the instruction RAM.
use mathlib.Core.Option.{some-injective}
use simtix.Base.{
  ◌<◌, ◌*◌, ◌⊎◌, inl, inr, true, false, ◌==◌, Bool-cases, lookup, ℕ, ◌%◌, ◌≤◌, ◌≡◌, refl, arith,
  some, none, List, [], ◌∷◌, Dict,
}
use simtix.Base.Sort.{sorted, insert_sorted}
use simtix.Base.Int.{word_mod, ints}
use simtix.Kernels.{Kernel, kernels, iram_words, slot_of, place_from, place_kernels}
use simtix.Kernels.Packing.{IsPacked, place_kernels-IsPacked}
use simtix.Kernels.Tight.{total_slots, before, place_kernels_lem}
use simtix.Ddr.{Image, alloc, ddr_base}
use simtix.Ddr.Layout.{IsImage, Allocated, alloc-Allocated}
use simtix.Ddr.Readmemh.{Line, at, word, emit, write_lines, write, readmemh}
use simtix.Ddr.Readmemh.RoundTrip.{IsCopy, readmemh-write}
use simtix.Ddr.Case.{Case}
use simtix.Apps.Logic.{IsValid}
use simtix.Apps.Output.{Files, case_files}
use simtix.Apps.Output.Covered.{IsFiles, case_files-IsFiles}

abbrev sizes : Kernel → ℕ
sizes k = 40

place_kernels_lem_example :
    ((16 * total_slots sizes kernels ≤ iram_words)
      × (slots : Dict ℕ) × (place_kernels sizes ≡ some slots)
      × ((k : Kernel) → slot_of slots k ≡ some (total_slots sizes (before k))))
    ⊎ ((iram_words < 16 * total_slots sizes kernels) × (place_kernels sizes ≡ none))
place_kernels_lem_example = place_kernels_lem sizes

-- Fifteen kernels of 40 words, three slots each
abbrev placed : Dict ℕ
placed =
    (0, 0)
    ∷ (1, 3)
    ∷ (2, 6)
    ∷ (3, 9)
    ∷ (4, 12)
    ∷ (5, 15)
    ∷ (6, 18)
    ∷ (7, 21)
    ∷ (8, 24)
    ∷ (9, 27)
    ∷ (10, 30)
    ∷ (11, 33)
    ∷ (12, 36)
    ∷ (13, 39)
    ∷ (14, 42)
    ∷ []

placed_run : place_kernels sizes ≡ some placed
unfolding place_kernels place_from
placed_run = refl

place_kernels-IsPacked_example : IsPacked sizes placed
place_kernels-IsPacked_example = place_kernels-IsPacked sizes placed placed_run

-- Two words, and the rest of their line
abbrev filled : Image
filled = record { words = (0x1000_0000, 7) ∷ (0x1000_0004, 0xffff_ffff) ∷ []; top = 0x1000_0020 }

filled-IsImage : IsImage filled
filled-IsImage = record {
  base_le = omega arith;
  aligned = refl;
  inside = λ a w h. inside a w h (Bool-cases (a == 0x1000_0000)) (Bool-cases (a == 0x1000_0004));
}
  where
    inside :
        (a w : ℕ)
        → lookup a filled.words ≡ some w
        → ((a == 0x1000_0000) ≡ true) ⊎ ((a == 0x1000_0000) ≡ false)
        → ((a == 0x1000_0004) ≡ true) ⊎ ((a == 0x1000_0004) ≡ false)
        → (ddr_base ≤ a) × (a < 0x1000_0020) × (a % 4 ≡ 0) × (w < word_mod)
    inside a w h (inl e) f = ground (arith, some-injective 7 w (rw e at h))
    inside a w h (inr e) (inl f) = ground (arith, some-injective 0xffff_ffff w (rw (e, f) at h))
    inside a w h (inr e) (inr f) = let g = rw (e, f) at h in cc

alloc-Allocated_example :
    (img' : Image) × (alloc 3 (some (ints (1 ∷ 2 ∷ 3 ∷ []))) filled ≡ some (0x1000_0020, img'))
    × Allocated filled 0x1000_0020 (ints (1 ∷ 2 ∷ 3 ∷ [])) img'
    × (0x1000_0020 % 32 ≡ 0)
alloc-Allocated_example =
    alloc-Allocated 3 (some (ints (1 ∷ 2 ∷ 3 ∷ []))) filled filled-IsImage refl

readmemh-write_example :
    (ls : List Line) × (write 1024 filled ≡ some ls) × IsCopy 1024 filled (readmemh 0 ls [])
readmemh-write_example = readmemh-write 1024 filled filled-IsImage (omega arith)

write_run : write 1024 filled ≡ some (at 0 ∷ word 7 ∷ word 0xffff_ffff ∷ [])
unfolding write write_lines emit sorted insert_sorted
write_run = refl

-- A case that expects the first word to be 9.
abbrev small_case : Case
small_case = record {
  name = record { app = "small"; sizes = [] };
  img = filled;
  launches = [];
  gold = (0x1000_0000, 9) ∷ [];
}

small_case-IsValid : IsValid small_case
small_case-IsValid = record {
  image = filled-IsImage;
  golden = λ a w h. golden a w h (Bool-cases (a == 0x1000_0000));
}
  where
    golden :
        (a w : ℕ)
        → lookup a small_case.gold ≡ some w
        → ((a == 0x1000_0000) ≡ true) ⊎ ((a == 0x1000_0000) ≡ false)
        → (v : ℕ) × (lookup a filled.words ≡ some v)
    golden a w h (inl e) = (7, rw e refl)
    golden a w h (inr e) = let g = rw e at h in cc

case_files-IsFiles_example :
    (f : Files) × (case_files 1024 small_case ≡ some f) × IsFiles 1024 small_case f
case_files-IsFiles_example = case_files-IsFiles 1024 small_case small_case-IsValid (omega arith)
