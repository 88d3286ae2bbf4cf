-- ===== src/Apps/Graph/Search.antt =====
-- The breadth-first search test of sim/gen_apps.py (bfs): the random graph, and a launch for each
-- level.
use simtix.Base.{
  ℕ, zero, suc, ◌+◌, ◌-◌, ◌*◌, ◌/◌, List, [], ◌∷◌, Option, none, ltb, ◌==◌, if◌then◌else◌,
  replicate, length,
}
use simtix.Base.Int.{ints}
use simtix.Kernels.{Kernel}
use simtix.Ddr.Case.{Case, numbered, new_case}
use simtix.Random.{Rng}
use simtix.Apps.Gen.{
  Config, Gen, ◌>>=◌, ◌>>◌, pure, lift, assert, randrange, alloc_list, alloc_zeros, launch, expect,
  build,
}
use simtix.Apps.Bfs.{visit_frontier, start}
use simtix.Apps.Graph.{link, csr, neighbours}

-- A flag's address and its value.
abbrev pub Flag : Type 0
Flag = ℕ × ℕ

module _ (R : Rng) where
  -- The random tree: n vertices more, from v on.
  unfoldable pub tree : ℕ → ℕ → List (List ℕ) → Gen R.State (List (List ℕ))
  tree zero v adj = pure adj
  tree (suc n) v adj = do u ← randrange R v; adj' ← lift (link u v adj); tree n (suc v) adj'

  -- n more pairs; a pair of one vertex is left out.
  unfoldable pub more_edges : ℕ → ℕ → List (List ℕ) → Gen R.State (List (List ℕ))
  more_edges zero nv adj = pure adj
  more_edges (suc n) nv adj = do
    u ← randrange R nv
    v ← randrange R nv
    adj' ← if u == v then pure adj else lift (link u v adj)
    more_edges n nv adj'

  unfoldable pub graph : ℕ → ℕ → Gen R.State (List (List ℕ))
  unfolding tree more_edges
  graph nv deg = do adj ← tree (nv - 1) 1 (replicate nv []); more_edges (nv * (deg - 2) / 2) nv adj

  module _ (cfg : Config) where
    module _ (nv prp pcol plev : ℕ) (rowptr col : List ℕ) where
      -- `while True`, on fuel: a flag and a launch for each level.
      unfoldable pub levels : ℕ → List ℕ → List ℕ → ℕ → Gen R.State (List ℕ × List Flag)
      levels zero lev frontier level r = none
      levels (suc fuel) lev frontier level r =
          (do
            pflag ← alloc_zeros 1
            launch cfg (numbered "bfs" level) Kernel.bfs
                (ints (prp ∷ pcol ∷ plev ∷ level ∷ pflag ∷ [])) nv 0
            s ← lift (
                visit_frontier (neighbours rowptr col) level frontier
                  (record { lev = lev; nxt = [] }))
            elim (s.nxt) [
              | [] ↦ pure (s.lev, (pflag, 0) ∷ [])
              | u ∷ us ↦ do
                (last, flags) ← levels fuel s.lev (u ∷ us) (level + 1)
                pure (last, (pflag, 1) ∷ flags)
            ])
            r

    -- `for a, v in flags: c.expect(a, [v])`
    unfoldable pub expect_flags : List Flag → Gen R.State (Unit {0})
    expect_flags [] = pure tt
    expect_flags ((a, v) ∷ flags) = expect a (ints (v ∷ [])) >> expect_flags flags

    unfoldable pub bfs_body : ℕ → ℕ → Gen R.State (Unit {0})
    unfolding graph csr levels expect_flags
    bfs_body nv deg = do
      adj ← graph nv deg
      assert (ltb 0 nv)
      let (rowptr, col) = csr adj (0 ∷ []) []
      prp ← alloc_list rowptr (nv + 1)
      pcol ← alloc_list col (length col)
      plev ← alloc_list (start nv) nv
      (lev, flags) ← levels nv prp pcol plev rowptr col nv (start nv) (0 ∷ []) 0
      expect plev (ints lev)
      expect_flags flags

    unfoldable pub bfs : ℕ → ℕ → R.State → Option (Case × R.State)
    unfolding bfs_body
    bfs nv deg = build R (bfs_body nv deg) (new_case "bfs" (nv ∷ deg ∷ []))
