-- ===== src/Apps/Bfs/Walks.antt =====
-- Walks of a graph, and levels that are distances.
use mathlib.Core.Path.{subst}
use simtix.Base.{
  ℕ, zero, suc, ◌+◌, ◌≤◌, ◌<◌, ◌≡◌, ◌≢◌, refl, sym, arith, inl, inr, List, [], ◌∷◌, length, ◌∈◌,
}
use simtix.Apps.Bfs.{unseen}
use simtix.Apps.Bfs.Visit.{level_of, NextTo}

-- A walk from vertex 0 to u of k edges.
pub data Walk (adj : ℕ → List ℕ) : ℕ → ℕ → Type 0 where
  here : Walk adj 0 0
  there : {u k : ℕ} (v : ℕ) → Walk adj v k → u ∈ adj v → Walk adj u (suc k)

-- Every vertex that a walk reaches has a level, at most the walk's length; and a vertex with a level has
-- a walk of that length.
pub record IsDistance (adj : ℕ → List ℕ) (lev : List ℕ) : Type 0 where
  pub shortest : (u k : ℕ) → Walk adj u k → (level_of lev u ≢ unseen) × (level_of lev u ≤ k)
  pub reached : (u : ℕ) → level_of lev u ≢ unseen → Walk adj u (level_of lev u)

pub level_of-lt : (lev : List ℕ) (x : ℕ) → level_of lev x ≢ unseen → x < length lev
level_of-lt [] x ne = absurd (ne refl)
level_of-lt (l ∷ lev) zero ne = omega arith
level_of-lt (l ∷ lev) (suc x) ne = omega (arith, level_of-lt lev x ne)

pub mem_of_next :
    (adj : ℕ → List ℕ) (x : ℕ) (vs : List ℕ) → NextTo adj x vs → (v : ℕ) × (v ∈ vs) × (x ∈ adj v)
mem_of_next adj x [] m = absurd m
mem_of_next adj x (v ∷ vs) (inl m) = (v, inl refl, m)
mem_of_next adj x (v ∷ vs) (inr m) = let (w, i, k) = mem_of_next adj x vs m in (w, inr i, k)

pub next_of_mem : (adj : ℕ → List ℕ) (x v : ℕ) (vs : List ℕ) → v ∈ vs → x ∈ adj v → NextTo adj x vs
next_of_mem adj x v [] i m = absurd i
next_of_mem adj x v (w ∷ vs) (inl e) m = inl (subst (λ i. x ∈ adj i) e m)
next_of_mem adj x v (w ∷ vs) (inr i) m = inr (next_of_mem adj x v vs i m)

-- What holds of the levels in the end.
pub record IsLevels (adj : ℕ → List ℕ) (lev : List ℕ) : Type 0 where
  pub source : level_of lev 0 ≡ 0
  pub root : (x : ℕ) → level_of lev x ≡ 0 → x ≡ 0
  pub closed :
      (v u : ℕ)
      → level_of lev v ≢ unseen
      → u ∈ adj v
      → (level_of lev u ≢ unseen) × (level_of lev u ≤ level_of lev v + 1)
  pub parent :
      (u k : ℕ)
      → level_of lev u ≡ suc k
      → suc k ≢ unseen
      → (v : ℕ) × (u ∈ adj v) × (level_of lev v ≡ k)
  pub below : (x : ℕ) → level_of lev x ≤ unseen

pub IsLevels-IsDistance : (adj : ℕ → List ℕ) (lev : List ℕ) → IsLevels adj lev → IsDistance adj lev
IsLevels-IsDistance adj lev p = record {
  shortest = shortest;
  reached = λ u ne. back (level_of lev u) u refl ne;
}
  where
    shortest : (u k : ℕ) → Walk adj u k → (level_of lev u ≢ unseen) × (level_of lev u ≤ k)
    shortest _ _ here = (λ e. omega (arith, e, p.source), omega (arith, p.source))
    shortest u _ (there v w m) =
        let (ne, le) = shortest v _ w in let (seen, step) = p.closed v u ne m in (seen, omega arith)

    back : (k u : ℕ) → level_of lev u ≡ k → k ≢ unseen → Walk adj u k
    back zero u e ne = subst (λ x. Walk adj x 0) (sym (p.root u e)) here
    back (suc k) u e ne =
        let (v, m, f) = p.parent u k e ne in
        there v (back k v f (λ h. omega (arith, h, e, p.below u))) m
