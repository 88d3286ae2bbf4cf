-- ===== src/Tests/Graph.antt =====
-- An example of the breadth-first search: a path of three vertices, and one apart.
use simtix.Base.{ℕ, zero, suc, ◌<◌, ◌≡◌, refl, arith, List, [], ◌∷◌, some, ◌∈◌, inl, inr}
use simtix.Apps.Bfs.{unseen, visit_edges, visit_frontier, search, start}
use simtix.Apps.Bfs.Walks.{IsDistance}
use simtix.Apps.Bfs.Distance.{search-IsDistance}

abbrev path : ℕ → List ℕ
path zero = 1 ∷ []
path (suc zero) = 0 ∷ 2 ∷ []
path (suc (suc zero)) = 1 ∷ []
path (suc (suc (suc n))) = []

path_inside : (v u : ℕ) → u ∈ path v → u < 4
path_inside zero u (inl e) = omega arith
path_inside zero u (inr m) = absurd m
path_inside (suc zero) u (inl e) = omega arith
path_inside (suc zero) u (inr (inl e)) = omega arith
path_inside (suc zero) u (inr (inr m)) = absurd m
path_inside (suc (suc zero)) u (inl e) = omega arith
path_inside (suc (suc zero)) u (inr m) = absurd m
path_inside (suc (suc (suc n))) u m = absurd m

search_run :
    search (λ v. some (path v)) 4 (start 4) (0 ∷ []) 0
    ≡ some (0 ∷ 1 ∷ 2 ∷ unseen ∷ [], 1 ∷ 1 ∷ 0 ∷ [])
unfolding search visit_frontier visit_edges
search_run = refl

search-IsDistance_example :
    (lev : List ℕ) × (flags : List ℕ) × (search (λ v. some (path v)) 4 (start 4) (0 ∷ []) 0
      ≡ some (lev, flags))
    × IsDistance path lev
search-IsDistance_example =
    search-IsDistance (λ v. some (path v)) path 4 (omega arith) (omega arith) (λ v h. refl)
      path_inside
