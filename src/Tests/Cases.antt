-- ===== src/Tests/Cases.antt =====
-- An example of each application's case.
use Prim.Native.String.{String}
use simtix.Base.{ℕ, ◌+◌, ◌*◌, ◌^◌, ◌≡◌, refl, arith, List, [], ◌∷◌, Option, some, true}
use simtix.Base.Text.{codes}
use simtix.Ddr.Case.{Case, new_case}
use simtix.Random.{rand_f32}
use simtix.Apps.Gen.{draws}
use simtix.Apps.Gemm.{gemm}
use simtix.Apps.Spmv.{spmv}
use simtix.Apps.Spmv.Result.{IsSpmv, spmv-IsSpmv}
use simtix.Apps.Gemm.Result.{IsGemm, gemm-IsGemm}
use simtix.Apps.Stencil.{stencil, stride}
use simtix.Apps.Stencil.Result.{IsStencil, stencil-IsStencil}
use simtix.Apps.Kmeans.{kmeans}
use simtix.Apps.Kmeans.Drawn.{drawn_x, drawn_y, picked}
use simtix.Apps.Kmeans.Result.{IsKmeans, kmeans-IsKmeans}
use simtix.Apps.Scan.{scan, block}
use simtix.Apps.Scan.Result.{IsScan, scan-IsScan}
use simtix.Apps.Scanseg.{scanseg}
use simtix.Apps.Scanseg.Result.{IsScanseg, scanseg-IsScanseg}
use simtix.Apps.Mlp.Layers.{mlp, inputs}
use simtix.Apps.Mlp.Result.{IsMlp, mlp-IsMlp}
use simtix.Apps.Zbtest.{zbtest}
use simtix.Apps.Zbtest.Result.{IsZbtest, zbtest-IsZbtest, firsts, seconds}
use simtix.Apps.Graph.Search.{bfs}
use simtix.Apps.Graph.Result.{IsBfs, bfs-IsBfs}
use simtix.Apps.Suite.{by_seed, wanted, seed_of, with_case}
use simtix.Apps.Suite.Only.{AreWanted, selected, by_seed-selected}
use simtix.Tests.Source.{counter, counter-IsRandom, eight}

-- The product of a 4 x 3 and a 3 x 32 matrix, by blocks.
gemm-IsGemm_example :
    (c : Case) × (s : ℕ) × (gemm counter eight 4 32 3 true 7 ≡ some (c, s))
    × IsGemm c 30 4 32 3 true
        (draws (4 * 3) (rand_f32 counter) 7).0
        (draws (3 * 32) (rand_f32 counter) (draws (4 * 3) (rand_f32 counter) 7).1).0
gemm-IsGemm_example =
    gemm-IsGemm counter eight 4 32 3 30 true 7 counter-IsRandom refl
      (λ e. (omega arith, omega arith))

-- Three sweeps in strips of two rows.
stencil-IsStencil_example :
    (c : Case) × (s : ℕ) × (stencil counter eight 4 8 2 3 1 ≡ some (c, s))
    × IsStencil eight 4 8 2 44 3 c (draws ((4 + 2) * stride eight 8) (rand_f32 counter) 1).0
stencil-IsStencil_example =
    stencil-IsStencil counter eight 4 8 2 3 44 1 counter-IsRandom (omega arith) refl
      (λ e. (omega arith, omega arith))

kmeans-IsKmeans_example :
    (c : Case) × (s : ℕ) × (kmeans counter eight 6 2 true 100 ≡ some (c, s))
    × IsKmeans c 50 6 2 true
        (drawn_x counter 6 2 100)
        (drawn_y counter 6 2 100)
        (picked counter 6 2 100 (drawn_x counter 6 2 100))
        (picked counter 6 2 100 (drawn_y counter 6 2 100))
kmeans-IsKmeans_example =
    kmeans-IsKmeans counter eight 6 2 50 true 100 counter-IsRandom (omega arith) (omega arith) refl
      (λ e. (omega arith, omega arith))

-- Two levels: 64 values are two blocks of 32.
scan-IsScan_example :
    (c : Case) × (s : ℕ) × (scan counter eight 64 5 ≡ some (c, s))
    × IsScan c (block eight) 20 24 64 (draws 64 (counter.randrange (2 ^ 16)) 5).0
scan-IsScan_example = scan-IsScan counter eight 64 20 24 5 (omega arith) refl refl refl

-- Segments of two rows of eight words.
scanseg-IsScanseg_example :
    (c : Case) × (s : ℕ) × (scanseg counter eight 2 48 5 ≡ some (c, s))
    × IsScanseg c 8 2 36 40 48 (draws 48 (counter.randrange (2 ^ 16)) 5).0
scanseg-IsScanseg_example =
    scanseg-IsScanseg counter eight 2 48 36 40 5 (omega arith) (omega arith) (omega arith) refl refl
      refl

zbtest-IsZbtest_example :
    (c : Case) × (s : ℕ) × (zbtest counter eight 9 0xffff_fffa ≡ some (c, s))
    × IsZbtest c 56 9 (firsts counter 9 0xffff_fffa) (seconds counter 9 0xffff_fffa)
zbtest-IsZbtest_example = zbtest-IsZbtest counter eight 9 56 0xffff_fffa refl

spmv-IsSpmv_example :
    (c : Case) × (s : ℕ) × (spmv counter eight 5 9 3 true 2 ≡ some (c, s)) × IsSpmv c 60 5 9
spmv-IsSpmv_example = spmv-IsSpmv counter eight 5 9 3 60 true 2 counter-IsRandom (omega arith) refl

-- A graph of five vertices, with two pairs drawn beside the tree.
bfs-IsBfs_example : (c : Case) × (s : ℕ) × (bfs counter eight 5 3 7 ≡ some (c, s)) × IsBfs c 16 5
bfs-IsBfs_example =
    bfs-IsBfs counter counter-IsRandom eight 5 16 (omega arith) (omega arith) refl 3 7

-- Two applications, the second of which is wanted.
abbrev named : String → ℕ → Option (Case × ℕ)
named app s = some (new_case app (s ∷ []), s + 1)

abbrev both_cases : List Case
both_cases = new_case "gemm" (2027 ∷ []) ∷ new_case "spmv" (2028 ∷ []) ∷ []

both_made : by_seed counter (λ n. n) [] 0 (named "gemm" ∷ named "spmv" ∷ []) ≡ some both_cases
unfolding by_seed wanted seed_of with_case
both_made = refl

by_seed-selected_example :
    (by_seed counter (λ n. n) (codes "spmv" ∷ []) 0 (named "gemm" ∷ named "spmv" ∷ [])
      ≡ some (selected (codes "spmv" ∷ []) 0 both_cases))
    × AreWanted (codes "spmv" ∷ []) 0 both_cases (selected (codes "spmv" ∷ []) 0 both_cases)
by_seed-selected_example =
    by_seed-selected counter (λ n. n) (codes "spmv" ∷ []) (named "gemm" ∷ named "spmv" ∷ [])
      both_cases both_made

-- Two layers, of nine and of three neurons, over two rows of four inputs.
mlp-IsMlp_example :
    (c : Case) × (s : ℕ) × (mlp counter eight 2 (4 ∷ 9 ∷ 3 ∷ []) 7 ≡ some (c, s))
    × IsMlp counter 2 26 c 4
        (draws 2 (inputs counter 4) 7).0
        (draws 2 (inputs counter 4) 7).1
        (9 ∷ 3 ∷ [])
mlp-IsMlp_example =
    mlp-IsMlp counter eight 2 4 26 (9 ∷ 3 ∷ []) 7 counter-IsRandom refl refl (omega arith)
      (omega arith, (omega arith, tt))
