-- ===== src/Ddr/Case.antt =====
-- A test case of sim/gen_apps.py (class Case): its memory image, its kernel launches in order, and
-- the words expected in memory at the end.
use Prim.Native.String.{String}
use simtix.Base.{ℕ, List, [], ◌∷◌, ◌++◌, Option, none, some, length, Dict}
use simtix.Base.Int.{ℤ}
use simtix.Base.Partial.{◌>>=◌}
use simtix.Kernels.{Kernel, slot_of}
use simtix.Ddr.{Image, empty_image, alloc, store_words}

-- A launch's tag: a word and, where the launches of a case are numbered, a number.
pub record Tag : Type 0 where
  pub word : String
  pub number : Option ℕ

abbrev pub tag : String → Tag
tag w = record { word = w; number = none }

abbrev pub numbered : String → ℕ → Tag
numbered w n = record { word = w; number = some n }

pub record Launch : Type 0 where
  pub tag : Tag
  pub slot : ℕ
  pub params : ℕ
  pub threads : ℕ
  pub blk : ℕ

-- The parts of a case's name: the application and the numbers behind it.
pub record Name : Type 0 where
  pub app : String
  pub sizes : List ℕ

pub record Case : Type 0 where
  pub name : Name
  pub img : Image
  pub launches : List Launch
  pub gold : Dict ℕ

-- `Case(name)`
abbrev pub new_case : String → List ℕ → Case
new_case app sizes = record {
  name = record { app = app; sizes = sizes };
  img = empty_image;
  launches = [];
  gold = [];
}

-- `Case.launch`: the parameter block is allocated even where the kernel has no slot, but then
-- the program has ended.
unfoldable pub launch : Dict ℕ → Tag → Kernel → List ℤ → ℕ → ℕ → Case → Option Case
launch slots tg kernel params threads blk c = do
  (p, img') ← alloc (length params) (some params) c.img
  slot ← slot_of slots kernel
  some (record c {
    img = img';
    launches =
        c.launches
        ++ record { tag = tg; slot = slot; params = p; threads = threads; blk = blk } ∷ [];
  })

-- `Case.expect`
unfoldable pub expect : ℕ → List ℤ → Case → Case
unfolding store_words
expect addr vals c = record c { gold = store_words addr vals c.gold }
