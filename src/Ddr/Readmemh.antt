-- ===== src/Ddr/Readmemh.antt =====
-- Image.write of sim/gen_apps.py, and Verilog's $readmemh, which reads the file back.
pub mod RoundTrip
use simtix.Base.{
  ℕ, suc, ◌+◌, ◌-◌, ◌*◌, ◌/◌, ◌%◌, ◌^◌, ◌≤◌, ◌<◌, ◌≡◌, refl, ◌≢◌, ◌⊎◌, inl, inr, List, [], ◌∷◌,
  Option, none, some, arith, Dict, lookup, insert, keys, mem-keys, keys-lookup, lookup-insert, ◌==◌,
  if◌then◌else◌, ◌∈◌, Bool, ◌∙◌, ap, ◌||◌, Option-cases, true, false, Bool-cases,
}
use mathlib.Core.Option
use simtix.Base.Arith.{mod_close}
use simtix.Base.Sort.{sorted, mem-sorted, sorted-mem}
use simtix.Ddr.{Image, ddr_base, word_index}
use simtix.Ddr.Layout.{IsImage}

-- A line of the file: `@<word index>` or a word.
pub data Line : Type 0 where
  at : ℕ → Line
  word : ℕ → Line

-- `prev is None or i != prev + 1`
abbrev breaks_run : Option ℕ → ℕ → Bool
breaks_run none i = true
breaks_run (some p) i = if i == p + 1 then false else true

-- The lines for a word: a new position where the run of indices breaks.
unfoldable pub emit : Option ℕ → ℕ → ℕ → List Line → List Line
emit prev i w ls = if breaks_run prev i then at i ∷ word w ∷ ls else word w ∷ ls

-- The loop of `Image.write` over the sorted addresses; `none` is a missing key.
unfoldable pub write_lines : ℕ → Option ℕ → List ℕ → Dict ℕ → Option (List Line)
unfolding emit
write_lines size prev [] d = some []
write_lines size prev (a ∷ addrs) d =
    let i = word_index size a in
    let rest = write_lines size (some i) addrs d in
    elim (lookup a d) [ none ↦ none | some w ↦ Option.map (emit prev i w) rest ]

unfoldable pub write : ℕ → Image → Option (List Line)
unfolding write_lines
write size img = write_lines size none (sorted (keys img.words)) img.words

-- $readmemh: `@i` moves the pointer, a word is stored at the pointer, which then advances.
unfoldable pub readmemh : ℕ → List Line → Dict ℕ → Dict ℕ
readmemh ptr [] mem = mem
readmemh ptr (at i ∷ ls) mem = readmemh i ls mem
readmemh ptr (word w ∷ ls) mem = readmemh (ptr + 1) ls (insert ptr w mem)
