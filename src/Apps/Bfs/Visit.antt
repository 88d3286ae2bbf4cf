-- ===== src/Apps/Bfs/Visit.antt =====
-- What the visits of one level change.
use simtix.Base.{
  ℕ, zero, suc, ◌+◌, ◌<◌, ◌≡◌, ◌≢◌, refl, sym, ap, ◌∙◌, arith, ◌⊎◌, inl, inr, List, [], ◌∷◌, ◌++◌,
  Option, some, ◌==◌, ==→eq, ==_ne, Bool-cases, if◌then◌else◌, get_elem?, get_elem?-eq-get_or,
  get_or, set, length, length-set, length-append, ◌∈◌,
}
use simtix.Apps.Bfs.{unseen, Levels, visit_edges, visit_frontier}

-- The level of a vertex; a vertex out of range is unseen.
abbrev pub level_of : List ℕ → ℕ → ℕ
level_of lev u = get_or lev u unseen

unfoldable pub unseen_count : List ℕ → ℕ
unseen_count [] = 0
unseen_count (l ∷ lev) = (if l == unseen then 1 else 0) + unseen_count lev

level_of-set :
    (lev : List ℕ) (u x w : ℕ)
    → u < length lev
    → level_of (set lev u w) x ≡ (if u == x then w else level_of lev x)
level_of-set [] u x w h = elim h [ ]
level_of-set (l ∷ lev) zero zero w h = refl
level_of-set (l ∷ lev) zero (suc x) w h = rw (==_ne 0 (suc x) (λ e. omega arith)) refl
level_of-set (l ∷ lev) (suc u) zero w h = rw (==_ne (suc u) 0 (λ e. omega arith)) refl
level_of-set (l ∷ lev) (suc u) (suc x) w h = level_of-set lev u x w (omega arith) ∙ ground arith

unseen_count-set :
    (lev : List ℕ) (u w : ℕ)
    → u < length lev
    → level_of lev u ≡ unseen
    → w ≢ unseen
    → unseen_count (set lev u w) + 1 ≡ unseen_count lev
unfolding unseen_count
unseen_count-set [] u w h e ne = elim h [ ]
unseen_count-set (l ∷ lev) zero w h e ne = rw (e, ==_ne w unseen ne) (omega arith)
unseen_count-set (l ∷ lev) (suc u) w h e ne =
    omega (arith, unseen_count-set lev u w (omega arith) e ne)

mem-snoc : (x u : ℕ) (l : List ℕ) → x ∈ (l ++ u ∷ []) → (x ∈ l) ⊎ (x ≡ u)
mem-snoc x u [] m = elim m [ inl e ↦ inr e | inr n ↦ absurd n ]
mem-snoc x u (y ∷ l) (inl e) = inl (inl e)
mem-snoc x u (y ∷ l) (inr m) = elim (mem-snoc x u l m) [ inl a ↦ inl (inr a) | inr e ↦ inr e ]

snoc-mem : (x u : ℕ) (l : List ℕ) → (x ∈ l) ⊎ (x ≡ u) → x ∈ (l ++ u ∷ [])
snoc-mem x u [] (inl m) = absurd m
snoc-mem x u [] (inr e) = inl e
snoc-mem x u (y ∷ l) (inl (inl e)) = inl e
snoc-mem x u (y ∷ l) (inl (inr m)) = inr (snoc-mem x u l (inl m))
snoc-mem x u (y ∷ l) (inr e) = inr (snoc-mem x u l (inr e))

-- The vertex x is a neighbour of one of `vs`.
abbrev pub NextTo : (ℕ → List ℕ) → ℕ → List ℕ → Type 0
NextTo adj x [] = ⊥
NextTo adj x (v ∷ vs) = (x ∈ adj v) ⊎ NextTo adj x vs

-- From s to t the vertices in Q are visited on the level `level`: those unseen get the next level and
-- are listed, nothing else changes.
pub record Visits (level : ℕ) (Q : ℕ → Type 0) (s t : Levels) : Type 0 where
  pub same_length : length t.lev ≡ length s.lev
  pub changed :
      (x : ℕ)
      → (level_of t.lev x ≡ level_of s.lev x)
        ⊎ ((level_of s.lev x ≡ unseen) × (level_of t.lev x ≡ level + 1) × Q x)
  pub seen : (x : ℕ) → Q x → level_of t.lev x ≢ unseen
  pub listed :
      (x : ℕ)
      → x ∈ t.nxt
      → (x ∈ s.nxt) ⊎ ((level_of s.lev x ≡ unseen) × (level_of t.lev x ≡ level + 1))
  pub new : (x : ℕ) → level_of s.lev x ≡ unseen → level_of t.lev x ≡ level + 1 → x ∈ t.nxt
  pub kept : (x : ℕ) → x ∈ s.nxt → x ∈ t.nxt
  pub count : unseen_count t.lev + length t.nxt ≡ unseen_count s.lev + length s.nxt

module _ (level : ℕ) (small : level + 1 < unseen) where
  Visits-none : (s : Levels) → Visits level (λ x. ⊥) s s
  Visits-none s = record {
    same_length = refl;
    changed = λ x. inl refl;
    seen = λ x q. absurd q;
    listed = λ x m. inl m;
    new = λ x e f. absurd (omega (arith, e, f, small));
    kept = λ x m. m;
    count = refl;
  }

  module _ (P Q : ℕ → Type 0) (s t u : Levels) (p : Visits level P s t)
      (q : Visits level Q t u) where
    changed_both :
        (x : ℕ)
        → (level_of u.lev x ≡ level_of s.lev x)
          ⊎ ((level_of s.lev x ≡ unseen) × (level_of u.lev x ≡ level + 1) × (P x ⊎ Q x))
    changed_both x = elim (p.changed x) [
      | inl e ↦ elim (q.changed x) [
        | inl f ↦ inl (f ∙ e)
        | inr (a, b, c) ↦ inr (sym e ∙ a, b, inr c)
      ]
      | inr (a, b, c) ↦ elim (q.changed x) [
        | inl f ↦ inr (a, f ∙ b, inl c)
        | inr (d, e, f) ↦ absurd (omega (arith, b, d, small))
      ]
    ]

    seen_both : (x : ℕ) → P x ⊎ Q x → level_of u.lev x ≢ unseen
    seen_both x (inr c) e = q.seen x c e
    seen_both x (inl c) e = elim (q.changed x) [
      | inl f ↦ p.seen x c (sym f ∙ e)
      | inr (d, f, g) ↦ p.seen x c d
    ]

    listed_both :
        (x : ℕ)
        → x ∈ u.nxt
        → (x ∈ s.nxt) ⊎ ((level_of s.lev x ≡ unseen) × (level_of u.lev x ≡ level + 1))
    listed_both x m = elim (q.listed x m) [
      | inl m' ↦ elim (p.listed x m') [
        | inl old ↦ inl old
        | inr (a, b) ↦ elim (q.changed x) [ inl f ↦ inr (a, f ∙ b) | inr (d, f, g) ↦ inr (a, f) ]
      ]
      | inr (a, b) ↦ elim (p.changed x) [ inl f ↦ inr (sym f ∙ a, b) | inr (d, f, g) ↦ inr (d, b) ]
    ]

    new_both : (x : ℕ) → level_of s.lev x ≡ unseen → level_of u.lev x ≡ level + 1 → x ∈ u.nxt
    new_both x a b = elim (p.changed x) [
      | inl e ↦ q.new x (e ∙ a) b
      | inr (d, f, g) ↦ q.kept x (p.new x d f)
    ]

    Visits-both : Visits level (λ x. P x ⊎ Q x) s u
    Visits-both = record {
      same_length = q.same_length ∙ p.same_length;
      changed = changed_both;
      seen = seen_both;
      listed = listed_both;
      new = new_both;
      kept = λ x m. q.kept x (p.kept x m);
      count = q.count ∙ p.count;
    }

  -- One unseen vertex.
  Visits-one :
      (u : ℕ) (s : Levels)
      → u < length s.lev
      → level_of s.lev u ≡ unseen
      → Visits level
          (λ x. x ≡ u)
          s
          (record { lev = set s.lev u (level + 1); nxt = s.nxt ++ u ∷ [] })
  Visits-one u s h e = record {
    same_length = length-set s.lev u (level + 1);
    changed = λ x. ground (arith, level_of-set s.lev u x (level + 1) h, e);
    seen = λ x q f. ground (arith, level_of-set s.lev u x (level + 1) h, small);
    listed = λ x m. elim (mem-snoc x u s.nxt m) [
      | inl old ↦ inl old
      | inr same ↦
          inr (ap (level_of s.lev) same ∙ e, ground (arith, level_of-set s.lev u x (level + 1) h))
    ];
    new = λ x a b. snoc-mem x u s.nxt (ground (arith, level_of-set s.lev u x (level + 1) h, small));
    kept = λ x m. snoc-mem x u s.nxt (inl m);
    count = omega (
      arith,
      unseen_count-set s.lev u (level + 1) h e (λ f. omega (arith, small)),
      length-append s.nxt (u ∷ []),
    );
  }

  -- A vertex that is seen.
  Visits-seen : (u : ℕ) (s : Levels) → level_of s.lev u ≢ unseen → Visits level (λ x. x ≡ u) s s
  Visits-seen u s ne = record {
    same_length = refl;
    changed = λ x. inl refl;
    seen = λ x q e. ne (ap (level_of s.lev) (sym q) ∙ e);
    listed = λ x m. inl m;
    new = λ x e f. absurd (omega (arith, e, f, small));
    kept = λ x m. m;
    count = refl;
  }

  visit_edges-Visits :
      (us : List ℕ) (s : Levels)
      → ((x : ℕ) → x ∈ us → x < length s.lev)
      → (t : Levels) × (visit_edges level us s ≡ some t) × Visits level (λ x. x ∈ us) s t
  unfolding visit_edges
  visit_edges-Visits [] s h = (s, refl, Visits-none s)
  visit_edges-Visits (u ∷ us) s h = elim (Bool-cases (level_of s.lev u == unseen)) [
    | inl fresh ↦
        let s1 : Levels = record { lev = set s.lev u (level + 1); nxt = s.nxt ++ u ∷ [] } in
        let (t, e, p) =
          visit_edges-Visits us s1
            (λ x m. omega (arith, h x (inr m), length-set s.lev u (level + 1))) in
        (
          t,
          rw (found, fresh, visit_edges) e,
          Visits-both (λ x. x ≡ u) (λ x. x ∈ us) s s1 t
              (Visits-one u s (h u (inl refl)) (==→eq _ _ fresh)) p,
        )
    | inr old ↦
        let (t, e, p) = visit_edges-Visits us s (λ x m. h x (inr m)) in
        (
          t,
          rw (found, old, visit_edges) e,
          Visits-both (λ x. x ≡ u) (λ x. x ∈ us) s s t
              (Visits-seen u s (λ f. ground (arith, f, old))) p,
        )
  ]
    where
      found : get_elem? s.lev u ≡ some (level_of s.lev u)
      found = get_elem?-eq-get_or s.lev u unseen (h u (inl refl))

  module _ (edges : ℕ → Option (List ℕ)) (adj : ℕ → List ℕ) where
    pub visit_frontier-Visits :
        (vs : List ℕ) (s : Levels)
        → ((v : ℕ) → v ∈ vs → edges v ≡ some (adj v))
        → ((v x : ℕ) → x ∈ adj v → x < length s.lev)
        → (t : Levels) × (visit_frontier edges level vs s ≡ some t)
          × Visits level (λ x. NextTo adj x vs) s t
    unfolding visit_frontier
    visit_frontier-Visits [] s known h = (s, refl, Visits-none s)
    visit_frontier-Visits (v ∷ vs) s known h =
        let (s1, e1, p1) = visit_edges-Visits (adj v) s (h v) in
        let (t, e, p) =
          visit_frontier-Visits vs s1 (λ w m. known w (inr m))
            (λ w x m. omega (arith, h w x m, p1.same_length)) in
        (
          t,
          rw (known v (inl refl), e1, visit_frontier) e,
          Visits-both (λ x. x ∈ adj v) (λ x. NextTo adj x vs) s s1 t p1 p,
        )
