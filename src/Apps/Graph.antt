-- ===== src/Apps/Graph.antt =====
-- The graph of the breadth-first search of sim/gen_apps.py (bfs): its sets of neighbours, and its
-- compressed rows.
pub mod Search
pub mod Edges
pub mod Expected
pub mod Levels
pub mod Result
pub mod Connected
pub mod Compressed
use simtix.Base.{
  ℕ, ◌+◌, ◌-◌, List, [], ◌∷◌, ◌++◌, Option, some, Bool, true, false, ◌==◌, if◌then◌else◌, get_elem?,
  set, length, take, drop,
}
use simtix.Base.Partial.{◌>>=◌}
use simtix.Base.Sort.{sorted}

unfoldable pub has : ℕ → List ℕ → Bool
has u [] = false
has u (v ∷ vs) = if u == v then true else has u vs

-- `set.add`; a set is the list of its members.
unfoldable pub set_add : ℕ → List ℕ → List ℕ
set_add u vs = if has u vs then vs else u ∷ vs

-- `adj[u].add(v); adj[v].add(u)`
unfoldable pub link : ℕ → ℕ → List (List ℕ) → Option (List (List ℕ))
unfolding set_add
link u v adj = do
  us ← get_elem? adj u
  let adj' = set adj u (set_add v us)
  vs ← get_elem? adj' v
  some (set adj' v (set_add u vs))

-- The loop over the vertices: what is in `rowptr` and `col` is extended.
unfoldable pub csr : List (List ℕ) → List ℕ → List ℕ → List ℕ × List ℕ
csr [] rowptr col = (rowptr, col)
csr (ns ∷ adj) rowptr col = let col' = col ++ sorted ns in csr adj (rowptr ++ length col' ∷ []) col'

-- `col[rowptr[v]:rowptr[v + 1]]`
unfoldable pub neighbours : List ℕ → List ℕ → ℕ → Option (List ℕ)
neighbours rowptr col v = do
  a ← get_elem? rowptr v
  b ← get_elem? rowptr (v + 1)
  some (take (b - a) (drop a col))
