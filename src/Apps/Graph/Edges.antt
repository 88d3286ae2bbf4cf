-- ===== src/Apps/Graph/Edges.antt =====
-- The sets of neighbours: what `link` adds, and what it keeps.
use simtix.Base.{
  ℕ, zero, suc, ◌<◌, ◌≡◌, ◌≢◌, refl, sym, ap, ◌∙◌, arith, ◌⊎◌, inl, inr, List, [], ◌∷◌, some, true,
  ◌==◌, ==→eq, Bool-cases, get_elem?-eq-get_or, get_or, set, length, length-set, ◌∈◌,
}
use mathlib.Core.Path.{subst}
use simtix.Apps.Graph.{has, set_add, link}

-- The set of a vertex; a vertex out of range has none.
abbrev pub set_of : List (List ℕ) → ℕ → List ℕ
set_of adj v = get_or adj v []

eq_or_ne : (u w : ℕ) → (u ≡ w) ⊎ (u ≢ w)
eq_or_ne u w = elim (Bool-cases (u == w)) [
  | inl e ↦ inl (==→eq u w e)
  | inr e ↦ inr (λ f. ground arith)
]

has-mem : (u : ℕ) (vs : List ℕ) → has u vs ≡ true → u ∈ vs
unfolding has
has-mem u [] e = cc
has-mem u (v ∷ vs) e = elim (Bool-cases (u == v)) [
  | inl same ↦ inl (==→eq u v same)
  | inr other ↦ inr (has-mem u vs (rw (other, has) at e))
]

-- `set_add` adds u and nothing else.
mem-set_add : (x u : ℕ) (vs : List ℕ) → x ∈ set_add u vs → (x ≡ u) ⊎ (x ∈ vs)
unfolding set_add
mem-set_add x u vs m = elim (Bool-cases (has u vs)) [
  | inl e ↦ inr (rw (e, set_add) at m)
  | inr e ↦ rw (e, set_add) at m
]

set_add-mem : (x u : ℕ) (vs : List ℕ) → (x ≡ u) ⊎ (x ∈ vs) → x ∈ set_add u vs
unfolding set_add
set_add-mem x u vs m = elim (Bool-cases (has u vs)) [
  | inl e ↦ rw (e) (elim m [ inl f ↦ subst (λ y. y ∈ vs) (sym f) (has-mem u vs e) | inr n ↦ n ])
  | inr e ↦ rw (e) m
]

set_of-set :
    (adj : List (List ℕ)) (u : ℕ) (ns : List ℕ) → u < length adj → set_of (set adj u ns) u ≡ ns
set_of-set [] u ns h = elim h [ ]
set_of-set (a ∷ adj) zero ns h = refl
set_of-set (a ∷ adj) (suc u) ns h = set_of-set adj u ns (omega arith)

set_of-set_other :
    (adj : List (List ℕ)) (u w : ℕ) (ns : List ℕ) → u ≢ w → set_of (set adj u ns) w ≡ set_of adj w
set_of-set_other [] u w ns ne = refl
set_of-set_other (a ∷ adj) zero zero ns ne = absurd (ne refl)
set_of-set_other (a ∷ adj) zero (suc w) ns ne = refl
set_of-set_other (a ∷ adj) (suc u) zero ns ne = refl
set_of-set_other (a ∷ adj) (suc u) (suc w) ns ne = set_of-set_other adj u w ns λ e. ne (ap suc e)

-- The sets of `adj'` are those of `adj`, with what `New` adds.
pub record Extends (New : ℕ → ℕ → Type 0) (adj adj' : List (List ℕ)) : Type 0 where
  pub same_length : length adj' ≡ length adj
  pub added : (w x : ℕ) → New w x → x ∈ set_of adj' w
  pub kept : (w x : ℕ) → x ∈ set_of adj w → x ∈ set_of adj' w
  pub only : (w x : ℕ) → x ∈ set_of adj' w → New w x ⊎ (x ∈ set_of adj w)

extend :
    (adj : List (List ℕ)) (u v : ℕ)
    → u < length adj
    → Extends (λ w x. (w ≡ u) × (x ≡ v)) adj (set adj u (set_add v (set_of adj u)))
extend adj u v h = record {
  same_length = length-set adj u _;
  added = λ w x (e, f).
      subst (λ y. x ∈ set_of adj' y) (sym e)
        (subst (λ l. x ∈ l) (sym here) (set_add-mem x v (set_of adj u) (inl f)));
  kept = λ w x m. elim (eq_or_ne u w) [
    | inl e ↦
        subst (λ y. x ∈ set_of adj' y) e
          (subst (λ l. x ∈ l) (sym here)
            (set_add-mem x v (set_of adj u) (inr (subst (λ y. x ∈ set_of adj y) (sym e) m))))
    | inr ne ↦ subst (λ l. x ∈ l) (sym (set_of-set_other adj u w _ ne)) m
  ];
  only = λ w x m. elim (eq_or_ne u w) [
    | inl e ↦
        elim (mem-set_add x v (set_of adj u)
          (subst (λ l. x ∈ l) here (subst (λ y. x ∈ set_of adj' y) (sym e) m))) [
            | inl f ↦ inl (sym e, f)
            | inr n ↦ inr (subst (λ y. x ∈ set_of adj y) e n)
          ]
    | inr ne ↦ inr (subst (λ l. x ∈ l) (set_of-set_other adj u w _ ne) m)
  ];
}
  where
    adj' : List (List ℕ)
    adj' = set adj u (set_add v (set_of adj u))

    here : set_of adj' u ≡ set_add v (set_of adj u)
    here = set_of-set adj u _ h

-- `link` makes each of the two a neighbour of the other, and no other changes.
pub link-Extends :
    (adj : List (List ℕ)) (u v : ℕ)
    → u < length adj
    → v < length adj
    → (adj' : List (List ℕ)) × (link u v adj ≡ some adj')
      × Extends (λ w x. ((w ≡ u) × (x ≡ v)) ⊎ ((w ≡ v) × (x ≡ u))) adj adj'
unfolding link
link-Extends adj u v hu hv =
    let one = set adj u (set_add v (set_of adj u)) in
    let p = extend adj u v hu in
    let hv' : v < length one = omega (arith, p.same_length) in
    let q = extend one v u hv' in
    (
      set one v (set_add u (set_of one v)),
      rw (get_elem?-eq-get_or adj u [] hu, link) (rw (get_elem?-eq-get_or one v [] hv') refl),
      record {
        same_length = q.same_length ∙ p.same_length;
        added = λ w x n. elim n [ inl a ↦ q.kept w x (p.added w x a) | inr b ↦ q.added w x b ];
        kept = λ w x m. q.kept w x (p.kept w x m);
        only = λ w x m. elim (q.only w x m) [
          | inl b ↦ inl (inr b)
          | inr m' ↦ elim (p.only w x m') [ inl a ↦ inl (inl a) | inr m'' ↦ inr m'' ]
        ];
      },
    )
