-- ===== src/Apps/Bfs.antt =====
-- The breadth-first search of sim/gen_apps.py (bfs): the loop over the levels.
pub mod Visit
pub mod Walks
pub mod Wave
pub mod Distance
use simtix.Base.{
  ℕ, zero, suc, ◌+◌, List, [], ◌∷◌, ◌++◌, Option, none, some, true, false, ◌==◌, get_elem?, set,
  replicate,
}
use simtix.Base.Partial.{◌>>=◌}

-- UNSEEN
abbrev pub unseen : ℕ
unseen = 0xffff_ffff

-- lev and nxt
pub record Levels : Type 0 where
  pub lev : List ℕ
  pub nxt : List ℕ

-- The inner loop, over the neighbours of a vertex.
unfoldable pub visit_edges : ℕ → List ℕ → Levels → Option Levels
visit_edges level [] s = some s
visit_edges level (u ∷ us) s = elim (get_elem? s.lev u) [
  | none ↦ none
  | some l ↦ elim (l == unseen) [
    | true ↦ visit_edges level us (record { lev = set s.lev u (level + 1); nxt = s.nxt ++ u ∷ [] })
    | false ↦ visit_edges level us s
  ]
]

-- The loop over the frontier; `edges v` is `col[rowptr[v]:rowptr[v + 1]]`.
unfoldable pub visit_frontier : (ℕ → Option (List ℕ)) → ℕ → List ℕ → Levels → Option Levels
visit_frontier edges level [] s = some s
visit_frontier edges level (v ∷ frontier) s = do
  us ← edges v
  s' ← visit_edges level us s
  visit_frontier edges level frontier s'

-- `while True`, on fuel: the levels in the end, and the flag of each level.
unfoldable pub search : (ℕ → Option (List ℕ)) → ℕ → List ℕ → List ℕ → ℕ → Option (List ℕ × List ℕ)
search edges zero lev frontier level = none
search edges (suc fuel) lev frontier level = do
  s ← visit_frontier edges level frontier (record { lev = lev; nxt = [] })
  elim (s.nxt) [
    | [] ↦ some (s.lev, 0 ∷ [])
    | u ∷ us ↦
        search edges fuel s.lev (u ∷ us) (level + 1) >>= λ (last, flags). some (last, 1 ∷ flags)
  ]

-- `level = [UNSEEN] * nv; level[0] = 0`
abbrev pub start : ℕ → List ℕ
start nv = set (replicate nv unseen) 0 0
