-- ===== src/Apps/Output.antt =====
-- The files of the main function of sim/gen_apps.py: for each case the memory image, the expected
-- words, and its lines of the manifest.
pub mod Covered
use simtix.Base.{
  ℕ, ◌+◌, ◌-◌, ◌*◌, ◌≤◌, List, [], ◌∷◌, ◌++◌, map, Option, none, some, leb, Dict, lookup, keys,
}
use mathlib.Core.List.{flatten}
use simtix.Base.Partial.{◌>>=◌, ◌>>◌, guard}
use simtix.Base.Sort.{sorted}
use simtix.Ddr.{ddr_base, word_index}
use simtix.Ddr.Readmemh.{Line, write}
use simtix.Ddr.Case.{Case, Name, Launch}

-- A line of the .gold file: a word index and a value.
pub record GoldLine : Type 0 where
  pub index : ℕ
  pub value : ℕ

-- The lines of apps.manifest: a kernel's slot, and a case with its launches. The paths of the files
-- follow from the names.
pub data ManifestLine : Type 0 where
  kernel_line : ℕ → ℕ → ManifestLine
  case_line : Name → ManifestLine
  mem_line : Name → ManifestLine
  launch_line : Launch → ManifestLine
  gold_line : Name → ManifestLine
  end_line : ManifestLine

-- `for a in sorted(c.gold)`; `none` is a missing key.
unfoldable pub gold_lines : ℕ → List ℕ → Dict ℕ → Option (List GoldLine)
gold_lines size [] gold = some []
gold_lines size (a ∷ addrs) gold =
    let rest = gold_lines size addrs gold in
    elim (lookup a gold) [
      | none ↦ none
      | some v ↦ elim rest [
        | none ↦ none
        | some ls ↦ some (record { index = word_index size a; value = v } ∷ ls)
      ]
    ]

pub record Files : Type 0 where
  pub mem : List Line
  pub gold : List GoldLine
  pub manifest : List ManifestLine

abbrev pub case_lines : Case → List ManifestLine
case_lines c =
    case_line c.name ∷ mem_line c.name ∷ map launch_line c.launches
    ++ (gold_line c.name ∷ end_line ∷ [])

-- The loop body of `main` for a case: `none` is the failed assertion, or a missing key.
unfoldable pub case_files : ℕ → Case → Option Files
unfolding gold_lines
case_files size c = do
  guard (leb (c.img.top - ddr_base) (4 * size))
  mem ← write size c.img
  gold ← gold_lines size (sorted (keys c.gold)) c.gold
  some (record { mem = mem; gold = gold; manifest = case_lines c })

-- `for name, slot in SLOTS.items()`
unfoldable kernel_lines : Dict ℕ → List ManifestLine
kernel_lines [] = []
kernel_lines ((k, slot) ∷ slots) = kernel_line k slot ∷ kernel_lines slots

unfoldable all_files : ℕ → List Case → Option (List Files)
unfolding case_files
all_files size [] = some []
all_files size (c ∷ cases) = do f ← case_files size c; fs ← all_files size cases; some (f ∷ fs)

-- apps.manifest
unfoldable pub manifest : ℕ → Dict ℕ → List Case → Option (List ManifestLine)
unfolding kernel_lines all_files
manifest size slots cases = do
  fs ← all_files size cases
  some (kernel_lines slots ++ flatten (map (λ (f : Files). f.manifest) fs))
