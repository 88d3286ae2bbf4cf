-- ===== src/Apps/Bfs/Wave.antt =====
-- One level of the search of bfs in sim/gen_apps.py.
use mathlib.Core.Path.{subst}
use native.Mathlib.Decide.{dec_lt}
use simtix.Base.{
  ℕ, suc, ◌+◌, ◌≤◌, ◌<◌, ◌≡◌, ◌≢◌, sym, ◌∙◌, arith, ◌⊎◌, inl, inr, List, [], length, ◌∈◌,
}
use simtix.Apps.Bfs.{unseen, Levels}
use simtix.Apps.Bfs.Visit.{level_of, unseen_count, NextTo, Visits}
use simtix.Apps.Bfs.Walks.{mem_of_next, next_of_mem, IsLevels}

module _ (adj : ℕ → List ℕ) (nv : ℕ) where
  -- The levels up to `level` are right, and the frontier is the last of them.
  pub record IsWave (lev frontier : List ℕ) (level : ℕ) : Type 0 where
    pub len : length lev ≡ nv
    pub source : level_of lev 0 ≡ 0
    pub root : (x : ℕ) → level_of lev x ≡ 0 → x ≡ 0
    pub front_in : (x : ℕ) → x ∈ frontier → level_of lev x ≡ level
    pub front_all : (x : ℕ) → level_of lev x ≡ level → x ∈ frontier
    pub bounded : (x : ℕ) → (level_of lev x ≡ unseen) ⊎ (level_of lev x ≤ level)
    pub closed :
        (v u : ℕ) → level_of lev v < level → u ∈ adj v → level_of lev u ≤ level_of lev v + 1
    pub parent :
        (u k : ℕ)
        → level_of lev u ≡ suc k
        → suc k ≢ unseen
        → (v : ℕ) × (u ∈ adj v) × (level_of lev v ≡ k)
    pub room : level + unseen_count lev < nv

  module _ (few : nv < unseen) (lev frontier : List ℕ) (level : ℕ) (p : IsWave lev frontier level)
      (t : Levels)
      (q : Visits level (λ x. NextTo adj x frontier) (record { lev = lev; nxt = [] }) t) where
    kept : (x : ℕ) → level_of lev x ≢ unseen → level_of t.lev x ≡ level_of lev x
    kept x ne = elim (q.changed x) [ inl e ↦ e | inr (a, b, c) ↦ absurd (ne a) ]

    bounded_next : (x : ℕ) → (level_of t.lev x ≡ unseen) ⊎ (level_of t.lev x ≤ level + 1)
    bounded_next x = elim (q.changed x) [
      | inl e ↦ elim (p.bounded x) [ inl f ↦ inl (e ∙ f) | inr f ↦ inr (omega arith) ]
      | inr (a, b, c) ↦ inr (omega arith)
    ]

    closed_next :
        (v u : ℕ)
        → level_of t.lev v < level + 1
        → u ∈ adj v
        → (level_of t.lev u ≢ unseen) × (level_of t.lev u ≤ level_of t.lev v + 1)
    closed_next v u lt m = elim (q.changed v) [
      | inr (a, b, c) ↦ absurd (omega arith)
      | inl e ↦ elim (dec_lt (level_of lev v) level) [
        | yes before ↦
            let le = p.closed v u before m in
            let ne : level_of lev u ≢ unseen = λ f. omega (arith, f, le, before, p.room) in
            (λ f. ne (sym (kept u ne) ∙ f), omega (arith, kept u ne, le, e))
        | no now ↦
            let same : level_of lev v ≡ level = omega arith in
            let ne = q.seen u (next_of_mem adj u v frontier (p.front_all v same) m) in
            (ne, elim (bounded_next u) [ inl f ↦ absurd (ne f) | inr f ↦ omega arith ])
      ]
    ]

    parent_next :
        (u k : ℕ)
        → level_of t.lev u ≡ suc k
        → suc k ≢ unseen
        → (v : ℕ) × (u ∈ adj v) × (level_of t.lev v ≡ k)
    parent_next u k e ne = elim (q.changed u) [
      | inl f ↦
          let (v, m, g) = p.parent u k (sym f ∙ e) ne in
          (
            v,
            m,
            kept v (λ h. elim (p.bounded u) [
              | inl b ↦ ne (sym (sym f ∙ e) ∙ b)
              | inr b ↦ omega (arith, h, g, e, f, b, p.room)
            ])
                ∙ g,
          )
      | inr (a, b, c) ↦
          let (v, i, m) = mem_of_next adj u frontier c in
          let at = p.front_in v i in
          (v, m, kept v (λ h. omega (arith, h, at, p.room)) ∙ omega (arith, at, b, e))
    ]

    root_next : (x : ℕ) → level_of t.lev x ≡ 0 → x ≡ 0
    root_next x e = elim (q.changed x) [
      | inl f ↦ p.root x (sym f ∙ e)
      | inr (a, b, c) ↦ absurd (omega arith)
    ]

    source_next : level_of t.lev 0 ≡ 0
    source_next = kept 0 (λ h. omega (arith, h, p.source)) ∙ p.source

    front_all_next : (x : ℕ) → level_of t.lev x ≡ level + 1 → x ∈ t.nxt
    front_all_next x e = elim (q.changed x) [
      | inl f ↦ elim (p.bounded x) [
        | inl g ↦ absurd (omega (arith, e, f, g, p.room))
        | inr g ↦ absurd (omega arith)
      ]
      | inr (a, b, c) ↦ q.new x a b
    ]

    pub visited-IsWave : 0 < length t.nxt → IsWave t.lev t.nxt (level + 1)
    visited-IsWave more = record {
      len = q.same_length ∙ p.len;
      source = source_next;
      root = root_next;
      front_in = λ x m. elim (q.listed x m) [ inl n ↦ absurd n | inr (a, b) ↦ b ];
      front_all = front_all_next;
      bounded = bounded_next;
      closed = λ v u lt m. (closed_next v u lt m).1;
      parent = parent_next;
      room = omega (arith, q.count, p.room, more);
    }

    pub visited-IsLevels : t.nxt ≡ [] → IsLevels adj t.lev
    visited-IsLevels none_new = record {
      source = source_next;
      root = root_next;
      closed = λ v u ne m. closed_next v u (old v ne) m;
      parent = parent_next;
      below = λ x. elim (bounded_next x) [ inl e ↦ omega arith | inr e ↦ omega (arith, e, p.room) ];
    }
      where
        old : (v : ℕ) → level_of t.lev v ≢ unseen → level_of t.lev v < level + 1
        old v ne = elim (q.changed v) [
          | inl e ↦ elim (p.bounded v) [ inl f ↦ absurd (ne (e ∙ f)) | inr f ↦ omega arith ]
          | inr (a, b, c) ↦ absurd (subst (λ l. v ∈ l) none_new (q.new v a b))
        ]
