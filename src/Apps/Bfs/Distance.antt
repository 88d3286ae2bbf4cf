-- ===== src/Apps/Bfs/Distance.antt =====
-- The search ends, and the level of every vertex is its distance from vertex 0.
use mathlib.Core.Path.{subst}
use simtix.Base.{
  ℕ, zero, suc, ◌+◌, ◌≤◌, ◌<◌, ◌≡◌, ◌≢◌, refl, sym, ap, ◌∙◌, arith, ◌⊎◌, inl, inr, List, [], ◌∷◌,
  Option, some, replicate, length, length-replicate, ◌∈◌,
}
use simtix.Apps.Bfs.{unseen, Levels, visit_frontier, search, start}
use simtix.Apps.Bfs.Visit.{level_of, unseen_count, NextTo, Visits, visit_frontier-Visits}
use simtix.Apps.Bfs.Walks.{IsDistance, level_of-lt, IsLevels, IsLevels-IsDistance}
use simtix.Apps.Bfs.Wave.{IsWave, visited-IsWave, visited-IsLevels}

search_more :
    (edges : ℕ → Option (List ℕ)) (fuel : ℕ) (lev frontier : List ℕ) (level : ℕ) (t : Levels)
    (u : ℕ) (us last flags : List ℕ)
    → visit_frontier edges level frontier (record { lev = lev; nxt = [] }) ≡ some t
    → t.nxt ≡ u ∷ us
    → search edges fuel t.lev (u ∷ us) (level + 1) ≡ some (last, flags)
    → search edges (suc fuel) lev frontier level ≡ some (last, 1 ∷ flags)
unfolding search
search_more edges fuel lev frontier level t u us last flags e f g = rw (e, f, g, search) refl

module _ (edges : ℕ → Option (List ℕ)) (adj : ℕ → List ℕ) (nv : ℕ) (few : nv < unseen)
    (known : (v : ℕ) → v < nv → edges v ≡ some (adj v))
    (inside : (v u : ℕ) → u ∈ adj v → u < nv) where
  search-IsLevels :
      (fuel : ℕ) (lev frontier : List ℕ) (level : ℕ)
      → nv ≤ fuel + level
      → IsWave adj nv lev frontier level
      → (last : List ℕ) × (flags : List ℕ) × (search edges fuel lev frontier level
          ≡ some (last, flags))
        × IsLevels adj last
  unfolding search
  search-IsLevels zero lev frontier level enough p = absurd (omega (arith, p.room))
  search-IsLevels (suc fuel) lev frontier level enough p =
      let (t, e, q) =
        visit_frontier-Visits level (omega (arith, p.room)) edges adj frontier
          (record { lev = lev; nxt = [] })
          (λ v m. known v (
            omega
              (arith, p.len, level_of-lt lev v (λ f. omega (arith, f, p.front_in v m, p.room)))))
          (λ v x m. omega (arith, inside v x m, p.len)) in
      next (λ l fr lv h w. search-IsLevels fuel l fr lv h w) t e q (t.nxt) refl
    where
      next :
          ((l fr : List ℕ) (lv : ℕ)
            → nv ≤ fuel + lv
            → IsWave adj nv l fr lv
            → (last : List ℕ) × (flags : List ℕ) × (search edges fuel l fr lv ≡ some (last, flags))
              × IsLevels adj last)
          → (t : Levels)
          → visit_frontier edges level frontier (record { lev = lev; nxt = [] }) ≡ some t
          → Visits level (λ x. NextTo adj x frontier) (record { lev = lev; nxt = [] }) t
          → (l : List ℕ) → t.nxt ≡ l
          → (last : List ℕ) × (flags : List ℕ) × (search edges (suc fuel) lev frontier level
              ≡ some (last, flags))
            × IsLevels adj last
      next rest t e q [] f = (
        t.lev,
        0 ∷ [],
        rw (e, f, search) refl,
        visited-IsLevels adj nv few lev frontier level p t q f,
      )
      next rest t e q (u ∷ us) f =
          let wave =
            visited-IsWave adj nv few lev frontier level p t q (omega (arith, ap length f)) in
          let (last, flags, g, r) =
            rest t.lev (u ∷ us) (level + 1) (omega arith)
              (subst (λ l. IsWave adj nv t.lev l (level + 1)) f wave) in
          (last, 1 ∷ flags, search_more edges fuel lev frontier level t u us last flags e f g, r)

level_of-replicate : (n x : ℕ) → level_of (replicate n unseen) x ≡ unseen
level_of-replicate zero x = refl
level_of-replicate (suc n) zero = refl
level_of-replicate (suc n) (suc x) = level_of-replicate n x

unseen_count-replicate : (n : ℕ) → unseen_count (replicate n unseen) ≡ n
unfolding unseen_count
unseen_count-replicate zero = refl
unseen_count-replicate (suc n) = omega (arith, unseen_count-replicate n)

start-IsWave : (adj : ℕ → List ℕ) (n : ℕ) → IsWave adj (suc n) (start (suc n)) (0 ∷ []) 0
unfolding unseen_count
start-IsWave adj n = record {
  len = ap suc (length-replicate n unseen);
  source = refl;
  root = root;
  front_in = λ x m. elim m [
    | inl e ↦ ap (level_of (start (suc n))) e
    | inr none_there ↦ absurd none_there
  ];
  front_all = λ x e. inl (root x e);
  bounded = bounded;
  closed = λ v u lt m. elim lt [ ];
  parent = parent;
  room = omega (arith, unseen_count-replicate n);
}
  where
    root : (x : ℕ) → level_of (start (suc n)) x ≡ 0 → x ≡ 0
    root zero e = refl
    root (suc x) e = absurd (omega (arith, e, level_of-replicate n x))

    bounded : (x : ℕ) → (level_of (start (suc n)) x ≡ unseen) ⊎ (level_of (start (suc n)) x ≤ 0)
    bounded zero = inr (omega arith)
    bounded (suc x) = inl (level_of-replicate n x)

    parent :
        (u k : ℕ)
        → level_of (start (suc n)) u ≡ suc k
        → suc k ≢ unseen
        → (v : ℕ) × (u ∈ adj v) × (level_of (start (suc n)) v ≡ k)
    parent zero k e ne = absurd (omega arith)
    parent (suc u) k e ne = absurd (ne (sym e ∙ level_of-replicate n u))

-- On a graph of nv vertices, 0 < nv < 0xffffffff, whose edges stay within it, the search ends within nv
-- levels, and the level of every vertex is its distance from vertex 0: each vertex that a walk
-- reaches has a level no larger than the walk's length, and each vertex with a level has a walk of
-- that length. The others stay UNSEEN.
pub search-IsDistance :
    (edges : ℕ → Option (List ℕ)) (adj : ℕ → List ℕ) (nv : ℕ)
    → 0 < nv
    → nv < unseen
    → ((v : ℕ) → v < nv → edges v ≡ some (adj v))
    → ((v u : ℕ) → u ∈ adj v → u < nv)
    → (lev : List ℕ) × (flags : List ℕ) × (search edges nv (start nv) (0 ∷ []) 0
        ≡ some (lev, flags))
      × IsDistance adj lev
search-IsDistance edges adj zero more few known inside = elim more [ ]
search-IsDistance edges adj (suc n) more few known inside =
    let (lev, flags, e, p) =
      search-IsLevels edges adj (suc n) few known inside (suc n) (start (suc n)) (0 ∷ []) 0
        (omega arith) (start-IsWave adj n) in
    (lev, flags, e, IsLevels-IsDistance adj lev p)
