-- ===== src/Ddr.antt =====
-- The memory image of sim/gen_apps.py (class Image) and a test case over it (class Case).
-- An address is a byte address of the DDR4 window; a word is a number below 2^32.
pub mod Layout
pub mod Readmemh
pub mod Case
use simtix.Base.{
  ℕ, suc, ◌+◌, ◌-◌, ◌*◌, ◌/◌, ◌%◌, ◌^◌, Bool, List, [], ◌∷◌, ◌++◌, Option, none, some, length,
  replicate, Dict, lookup, insert, keys, ◌==◌, if◌then◌else◌,
}
use simtix.Base.Int.{ℤ, pos, to_word}

abbrev pub ddr_base : ℕ
ddr_base = 0x1000_0000

-- `x & ~31`
abbrev pub line_floor : ℕ → ℕ
line_floor x = x / 32 * 32

pub record Image : Type 0 where
  pub words : Dict ℕ
  pub top : ℕ

abbrev pub empty_image : Image
empty_image = record { words = []; top = ddr_base }

-- `for i, v in enumerate(vals): d[addr + 4 * i] = v & 0xFFFF_FFFF`
unfoldable pub store_words : ℕ → List ℤ → Dict ℕ → Dict ℕ
store_words addr [] d = d
store_words addr (v ∷ vals) d = store_words (addr + 4) vals (insert addr (to_word v) d)

-- `init if init is not None else [0] * nwords`
abbrev pub init_or_zeros : ℕ → Option (List ℤ) → List ℤ
init_or_zeros nwords none = replicate nwords (pos 0)
init_or_zeros nwords (some init) = init

-- `Image.alloc`: `none` is the failed assertion on the length.
unfoldable pub alloc : ℕ → Option (List ℤ) → Image → Option (ℕ × Image)
unfolding store_words
alloc nwords init img =
    let vals = init_or_zeros nwords init in
    if length vals == nwords
    then some (
      img.top,
      record {
        words = store_words img.top vals img.words;
        top = img.top + line_floor (4 * nwords + 31);
      },
    )
    else none

-- `(a >> 2) & (WORDS - 1)`, where WORDS is a power of two
abbrev pub word_index : ℕ → ℕ → ℕ
word_index size a = a / 4 % size
