-- ===== src/Apps/Graph/Connected.antt =====
-- The random graph is connected.
use mathlib.Core.Path.{subst}
use simtix.Base.{
  ℕ, zero, suc, ◌+◌, ◌-◌, ◌*◌, ◌/◌, ◌≤◌, ◌<◌, ◌≡◌, refl, ◌∙◌, arith, inl, inr, List, [], some, ◌==◌,
  Bool-cases, lt→ltb, replicate, length, length-replicate, ◌∈◌,
}
use simtix.Random.{Rng, IsRandom}
use simtix.Apps.Gen.{Run, draw, randrange}
use simtix.Apps.Logic.{
  Ensures, ensures, Ensures-bind, Ensures-run, Ensures-weaken, lift_run, assert_run,
}
use simtix.Apps.Bfs.Walks.{Walk, here, there}
use simtix.Apps.Graph.{link}
use simtix.Apps.Graph.Search.{tree, more_edges, graph}
use simtix.Apps.Graph.Edges.{set_of, link-Extends}

-- Sets of neighbours of nv vertices, in which there is a walk from vertex 0 to each of the first v.
pub record IsGraph (nv v : ℕ) (adj : List (List ℕ)) : Type 0 where
  pub size : length adj ≡ nv
  pub inside : (w x : ℕ) → x ∈ set_of adj w → x < nv
  pub both : (w x : ℕ) → x ∈ set_of adj w → w ∈ set_of adj x
  pub joined : (w : ℕ) → w < v → (k : ℕ) × Walk (set_of adj) w k

pub Walk-more :
    {f g : ℕ → List ℕ} {u k : ℕ} → Walk f u k → ((w x : ℕ) → x ∈ f w → x ∈ g w) → Walk g u k
Walk-more here more = here
Walk-more (there v p m) more = there v (Walk-more p more) (more v _ m)

no_edges : (n w : ℕ) → set_of (replicate n []) w ≡ []
no_edges zero w = refl
no_edges (suc n) zero = refl
no_edges (suc n) (suc w) = no_edges n w

empty-IsGraph : (nv : ℕ) → IsGraph nv 1 (replicate nv [])
empty-IsGraph nv = record {
  size = length-replicate nv [];
  inside = λ w x m. absurd (subst (λ l. x ∈ l) (no_edges nv w) m);
  both = λ w x m. absurd (subst (λ l. x ∈ l) (no_edges nv w) m);
  joined = λ w lt. (0, subst (λ u. Walk (set_of (replicate nv [])) u 0) (omega (arith, lt)) here);
}

-- An edge keeps the graph, and joins its ends.
record Linked (nv v a b : ℕ) (adj : List (List ℕ)) : Type 0 where
  pub adj' : List (List ℕ)
  pub made : link a b adj ≡ some adj'
  pub graph : IsGraph nv v adj'
  pub edge : b ∈ set_of adj' a

linked :
    (nv v a b : ℕ) (adj : List (List ℕ)) → IsGraph nv v adj → a < nv → b < nv → Linked nv v a b adj
linked nv v a b adj p ha hb =
    let (adj', e, q) = link-Extends adj a b (omega (arith, p.size)) (omega (arith, p.size)) in
    record {
      adj' = adj';
      made = e;
      graph = record {
        size = q.same_length ∙ p.size;
        inside = λ w x m. elim (q.only w x m) [
          | inl (inl (f, g)) ↦ omega (arith, g)
          | inl (inr (f, g)) ↦ omega (arith, g)
          | inr old ↦ p.inside w x old
        ];
        both = λ w x m. elim (q.only w x m) [
          | inl (inl (f, g)) ↦ q.added x w (inr (g, f))
          | inl (inr (f, g)) ↦ q.added x w (inl (g, f))
          | inr old ↦ q.kept x w (p.both w x old)
        ];
        joined = λ w lt. let (k, t) = p.joined w lt in (k, Walk-more t q.kept);
      };
      edge = q.added a b (inl (refl, refl));
    }

module _ (R : Rng) (law : IsRandom R) where
  randrange-Ensures :
      (n : ℕ) (r : Run R.State)
      → 0 < n
      → Ensures (λ u r'. (u < n) × (r'.case ≡ r.case)) (randrange R n r)
  unfolding randrange draw
  randrange-Ensures n r h =
      Ensures-run _ (assert_run r (lt→ltb 0 n h)) (ensures (law.randrange-lt n r.rng h, refl))

  -- Each further vertex is joined to an earlier one.
  tree-Ensures :
      (nv n v : ℕ) (adj : List (List ℕ)) (r : Run R.State)
      → 0 < v
      → v + n ≤ nv
      → IsGraph nv v adj
      → Ensures (λ adj' r'. IsGraph nv (v + n) adj' × (r'.case ≡ r.case)) (tree R n v adj r)
  unfolding tree
  tree-Ensures nv zero v adj r pos le p =
      ensures (subst (λ m. IsGraph nv m adj) (omega arith) p, refl)
  tree-Ensures nv (suc n) v adj r pos le p =
      Ensures-bind (randrange-Ensures v r pos) λ u r1 (lt, same).
        let L = linked nv v u v adj p (omega arith) (omega arith) in
        Ensures-run _ (lift_run r1 L.made) (
          Ensures-weaken
            (tree-Ensures nv n (suc v) L.adj' r1 (omega arith) (omega arith)
              (one_more nv v u L.adj' L.graph L.edge lt))
            λ adj' r2 (q, same'). (subst (λ m. IsGraph nv m adj') (omega arith) q, same' ∙ same))
    where
      one_more :
          (nv v u : ℕ) (adj : List (List ℕ))
          → IsGraph nv v adj
          → v ∈ set_of adj u
          → u < v
          → IsGraph nv (suc v) adj
      one_more nv v u adj p m lt = record {
        size = p.size;
        inside = p.inside;
        both = p.both;
        joined = λ w le. elim (Bool-cases (w == v)) [
          | inl e ↦
              let (k, t) = p.joined u lt in
              (suc k, subst (λ x. Walk (set_of adj) x (suc k)) (ground arith) (there u t m))
          | inr e ↦ p.joined w (ground arith)
        ];
      }

  more_edges-Ensures :
      (nv n : ℕ) (adj : List (List ℕ)) (r : Run R.State)
      → 0 < nv
      → IsGraph nv nv adj
      → Ensures (λ adj' r'. IsGraph nv nv adj' × (r'.case ≡ r.case)) (more_edges R n nv adj r)
  unfolding more_edges
  more_edges-Ensures nv zero adj r pos p = ensures (p, refl)
  more_edges-Ensures nv (suc n) adj r pos p =
      Ensures-bind (randrange-Ensures nv r pos) λ u r1 (hu, same).
        Ensures-bind (randrange-Ensures nv r1 pos) λ v r2 (hv, same'). elim (Bool-cases (u == v)) [
          | inl e ↦ rw (e) (
              Ensures-weaken (more_edges-Ensures nv n adj r2 pos p)
                λ adj' r3 (q, same''). (q, same'' ∙ same' ∙ same))
          | inr e ↦
              let L = linked nv nv u v adj p hu hv in
              rw (e) (
                Ensures-run _ (lift_run r2 L.made) (
                  Ensures-weaken (more_edges-Ensures nv n L.adj' r2 pos L.graph)
                    λ adj' r3 (q, same''). (q, same'' ∙ same' ∙ same)))
        ]

  -- For a source as documented and at least one vertex, the random graph is made: its sets lie within
  -- the vertices, hold each edge at both ends, and join every vertex to vertex 0 by a walk.
  pub graph-IsGraph :
      (nv deg : ℕ) (r : Run R.State)
      → 0 < nv
      → Ensures (λ adj r'. IsGraph nv nv adj × (r'.case ≡ r.case)) (graph R nv deg r)
  unfolding graph
  graph-IsGraph nv deg r pos =
      Ensures-bind
        (tree-Ensures nv (nv - 1) 1 (replicate nv []) r (omega arith) (omega arith)
          (empty-IsGraph nv))
        λ adj r1 (p, same).
          Ensures-weaken
            (more_edges-Ensures nv (nv * (deg - 2) / 2) adj r1 pos
              (subst (λ m. IsGraph nv m adj) (omega arith) p))
            λ adj' r2 (q, same'). (q, same' ∙ same)
