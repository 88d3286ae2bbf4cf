-- ===== src/Apps/Suite.antt =====
-- The cases of each size in sim/gen_apps.py (SIZES, APPS, SEED), and its main function: from the
-- word counts of the kernel images to the lines of the manifest.
pub mod Only
use Prim.Native.String.{String}
use simtix.Base.{
  ℕ, suc, ◌+◌, ◌^◌, List, [], ◌∷◌, ◌++◌, map, Option, none, some, Bool, true, false, ◌||◌, ◌==◌,
  if◌then◌else◌, get_elem?,
}
use simtix.Base.Text.{Text, codes, text_eq}
use simtix.Base.Partial.{◌>>=◌, ◌>>◌, guard}
use simtix.Kernels.{Kernel, place_kernels}
use simtix.Ddr.Case.{Case}
use simtix.Random.{Rng}
use simtix.Apps.Gen.{Config}
use simtix.Apps.Gemm.{gemm}
use simtix.Apps.Spmv.{spmv}
use simtix.Apps.Stencil.{stencil}
use simtix.Apps.Kmeans.{kmeans}
use simtix.Apps.Scan.{scan}
use simtix.Apps.Scanseg.{scanseg}
use simtix.Apps.Zbtest.{zbtest}
use simtix.Apps.Graph.Search.{bfs}
use simtix.Apps.Mlp.Layers.{mlp}
use simtix.Apps.Output.{ManifestLine, manifest}

pub data Size : Type 0 where
  small large board dram : Size

-- APPS
abbrev pub apps : List Text
apps = map codes (
    "gemm" ∷ "spmv" ∷ "stencil" ∷ "kmeans" ∷ "bfs" ∷ "scan" ∷ "mlp" ∷ "gemmrb" ∷ "scanseg"
    ∷ "stencilrb" ∷ "kmeansu" ∷ "spmvz" ∷ [])

-- SEED
abbrev pub seeds : List (Text × ℕ)
seeds =
    (codes "gemmrb", 0)
    ∷ (codes "scanseg", 5)
    ∷ (codes "stencilrb", 2)
    ∷ (codes "kmeansu", 3)
    ∷ (codes "spmvz", 1)
    ∷ []

-- `SEED.get(name, i)`
unfoldable pub seed_of : List (Text × ℕ) → Text → ℕ → ℕ
seed_of [] name i = i
seed_of ((key, seed) ∷ table) name i = if text_eq key name then seed else seed_of table name i

unfoldable pub is_listed : Text → List Text → Bool
is_listed name [] = false
is_listed name (key ∷ keys) = text_eq key name || is_listed name keys

-- `not args.only or name in args.only`
unfoldable pub wanted : List Text → Text → Bool
unfolding is_listed
wanted [] name = true
wanted (key ∷ only) name = is_listed name (key ∷ only)

-- `args.size in ('small', 'large')`
unfoldable one_stream : Size → Bool
one_stream small = true
one_stream large = true
one_stream board = false
one_stream dram = false

module _ (R : Rng) where
  abbrev pub Generator : Type 0
  Generator = R.State → Option (Case × R.State)

  -- SIZES
  unfoldable pub sizes : Config → Size → List Generator
  sizes cfg small =
      gemm R cfg 32 32 32 false
      ∷ spmv R cfg 512 512 16 false
      ∷ stencil R cfg 32 32 0 2
      ∷ kmeans R cfg 1024 8 false
      ∷ bfs R cfg 1024 6
      ∷ scan R cfg 2048
      ∷ mlp R cfg 8 (784 ∷ 128 ∷ 10 ∷ [])
      ∷ zbtest R cfg 256
      ∷ []
  sizes cfg large =
      gemm R cfg 64 64 64 false
      ∷ spmv R cfg 4096 4096 16 false
      ∷ stencil R cfg 128 128 0 2
      ∷ kmeans R cfg 16384 16 false
      ∷ bfs R cfg 16384 8
      ∷ scan R cfg 65536
      ∷ mlp R cfg 64 (784 ∷ 256 ∷ 128 ∷ 10 ∷ [])
      ∷ []
  sizes cfg board =
      gemm R cfg 64 64 64 false
      ∷ spmv R cfg 4096 4096 16 false
      ∷ stencil R cfg 128 128 0 4
      ∷ kmeans R cfg 16384 16 false
      ∷ bfs R cfg 16384 8
      ∷ scan R cfg 65536
      ∷ mlp R cfg 16 (784 ∷ 256 ∷ 128 ∷ 10 ∷ [])
      ∷ gemm R cfg 64 64 64 true
      ∷ scanseg R cfg 64 65536
      ∷ stencil R cfg 128 128 16 4
      ∷ kmeans R cfg 16384 16 true
      ∷ spmv R cfg 4096 4096 16 true
      ∷ []
  sizes cfg dram =
      gemm R cfg 256 256 256 false
      ∷ spmv R cfg 65536 65536 16 false
      ∷ stencil R cfg 512 512 0 4
      ∷ kmeans R cfg 262144 16 false
      ∷ bfs R cfg 262144 8
      ∷ scan R cfg (2 ^ 20)
      ∷ mlp R cfg 256 (784 ∷ 256 ∷ 128 ∷ 10 ∷ [])
      ∷ gemm R cfg 256 256 256 true
      ∷ scanseg R cfg 64 (2 ^ 20)
      ∷ stencil R cfg 512 512 16 4
      ∷ kmeans R cfg 262144 16 true
      ∷ spmv R cfg 65536 65536 16 true
      ∷ []

  -- `[f(rng) for f in SIZES[args.size]]`
  unfoldable in_one_stream : List Generator → R.State → Option (List Case)
  in_one_stream [] s = some []
  in_one_stream (f ∷ fs) s = do (c, s') ← f s; cs ← in_one_stream fs s'; some (c ∷ cs)

  unfoldable pub with_case : Option (Case × R.State) → Option (List Case) → Option (List Case)
  with_case made rest = do (c, _) ← made; cs ← rest; some (c ∷ cs)

  module _ (seeded : ℕ → R.State) where
    -- A seed for each application that is wanted; `seeded` is `random.Random`.
    unfoldable pub by_seed : List Text → ℕ → List Generator → Option (List Case)
    unfolding wanted seed_of with_case
    by_seed only i [] = some []
    by_seed only i (f ∷ fs) =
        let rest = by_seed only (suc i) fs in
        get_elem? apps i >>= λ name.
        if wanted only name then with_case (f (seeded (2027 + seed_of seeds name i))) rest else rest

    -- `main`, from the word counts of the images on: `none` is an error that ends the program.
    unfoldable main : (Kernel → ℕ) → Size → ℕ → Bool → ℕ → List Text → Option (List ManifestLine)
    unfolding sizes in_one_stream by_seed one_stream
    main words size lanes own_kdir words_lg only = do
      guard (lanes == 8 || own_kdir)
      slots ← place_kernels words
      let cfg : Config = record { lanes = lanes; slots = slots }
      cases ←
          (if one_stream size
            then in_one_stream (sizes cfg size) (seeded 2027)
            else by_seed only 0 (sizes cfg size))
      manifest (2 ^ words_lg) slots cases
