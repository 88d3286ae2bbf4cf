-- ===== src/Sim/Launches.antt =====
-- The launches of sim/vortex_compare.py: which of them a run has, and how they are grouped.
use simtix.Base.{
  List, [], ◌∷◌, ◌++◌, none, some, inl, inr, true, false, Bool-cases, Option-cases, ◌≡◌, refl, sym,
  ap, ◌∙◌, if◌then◌else◌,
}
use mathlib.Core.Path.{subst}
use simtix.Base.Text.{Text, text_eq, text_eq-eq, texts_eq, texts_apart}
use simtix.Sim.Rows.{Key, Rows, find, keys}
use simtix.Sim.Compare.{Counts, is_in, not_in, add_case, group_cases}

-- The key has counts.
abbrev pub IsIn : Rows Counts → Key → Type 0
IsIn rows k = (v : Counts) × (find k rows ≡ some v)

-- The property holds for each item.
abbrev pub Every : {A : Type 0} → (A → Type 0) → List A → Type 0
Every P [] = Unit
Every P (x ∷ xs) = P x × Every P xs

-- All launches of the cases have counts.
abbrev pub CasesIn : Rows Counts → List (Text × List Text) → Type 0
CasesIn rows = Every (λ e. Every (λ l. IsIn rows (e.0 ∷ l ∷ [])) e.1)

pub Every-map :
    {A : Type 0} (P Q : A → Type 0) (xs : List A) → ((x : A) → P x → Q x) → Every P xs → Every Q xs
Every-map P Q [] f h = tt
Every-map P Q (x ∷ xs) f h = (f x h.0, Every-map P Q xs f h.1)

Every-snoc :
    {A : Type 0} (P : A → Type 0) (xs : List A) (x : A) → Every P xs → P x → Every P (xs ++ x ∷ [])
Every-snoc P [] x h p = (p, tt)
Every-snoc P (y ∷ xs) x h p = (h.0, Every-snoc P xs x h.1 p)

IsIn-cons : (e : Key × Counts) (rows : Rows Counts) (k : Key) → IsIn rows k → IsIn (e ∷ rows) k
IsIn-cons e rows k h = elim (Bool-cases (texts_eq k e.0)) [
  | inl same ↦ (e.1, rw same refl)
  | inr other ↦ (h.0, rw other h.1)
]

-- A dict's own keys have values.
pub keys-IsIn : (rows : Rows Counts) → Every (IsIn rows) (keys rows)
keys-IsIn [] = tt
keys-IsIn (e ∷ rows) = (
  elim (Bool-cases (texts_eq e.0 e.0)) [
    | inl same ↦ (e.1, rw same refl)
    | inr other ↦ absurd (texts_apart e.0 e.0 other refl)
  ],
  Every-map _ _ (keys rows) (IsIn-cons e rows) (keys-IsIn rows),
)

skip_in :
    (k : Key) (ks : List Key) (rows : Rows Counts)
    → IsIn rows k
    → not_in (k ∷ ks) rows ≡ not_in ks rows
skip_in k ks rows h =
    let there : is_in k rows ≡ true = rw (h.1, is_in) refl in
    ap (λ b. if b then not_in ks rows else k ∷ not_in ks rows) there

keep_absent :
    (k : Key) (ks : List Key) (rows : Rows Counts)
    → find k rows ≡ none
    → not_in (k ∷ ks) rows ≡ k ∷ not_in ks rows
keep_absent k ks rows h =
    let gone : is_in k rows ≡ false = rw (h, is_in) refl in
    ap (λ b. if b then not_in ks rows else k ∷ not_in ks rows) gone

pub not_in_nil : (ks : List Key) (rows : Rows Counts) → not_in ks rows ≡ [] → Every (IsIn rows) ks
not_in_nil [] rows e = tt
not_in_nil (k ∷ ks) rows e = elim (Option-cases (find k rows)) [
  | inl absent ↦ absurd (no_cons (sym (keep_absent k ks rows absent) ∙ e))
  | inr here ↦ (here, not_in_nil ks rows (sym (skip_in k ks rows here) ∙ e))
]
  where
    no_cons : {A : Type 0} {x : A} {xs : List A} → x ∷ xs ≡ [] → ⊥
    no_cons h = cc

-- The first key that is not in the other dict.
pub not_in_cons :
    (own other : Rows Counts) (ks : List Key) (k : Key) (rest : List Key)
    → Every (IsIn own) ks
    → not_in ks other ≡ k ∷ rest
    → IsIn own k × (find k other ≡ none)
not_in_cons own other [] k rest h e = cc
not_in_cons own other (j ∷ ks) k rest h e = elim (Option-cases (find j other)) [
  | inl absent ↦
      let same : j ≡ k = heads (sym (keep_absent j ks other absent) ∙ e) in
      (subst (IsIn own) same h.0, subst (λ i. find i other ≡ none) same absent)
  | inr here ↦ not_in_cons own other ks k rest h.1 (sym (skip_in j ks other here) ∙ e)
]
  where
    heads : {x y : Key} {xs ys : List Key} → x ∷ xs ≡ y ∷ ys → x ≡ y
    heads p = cc

add_case-CasesIn :
    (rows : Rows Counts) (case launch : Text) (cases : List (Text × List Text))
    → IsIn rows (case ∷ launch ∷ [])
    → CasesIn rows cases
    → CasesIn rows (add_case case launch cases)
add_case-CasesIn rows case launch [] h c = ((h, tt), tt)
add_case-CasesIn rows case launch (e ∷ cases) h c = elim (Bool-cases (text_eq case e.0)) [
  | inl same ↦ rw same (
    Every-snoc _ e.1 launch c.0
        (subst (λ t. IsIn rows (t ∷ launch ∷ [])) (text_eq-eq case e.0 same) h),
    c.1,
  )
  | inr other ↦ rw other (c.0, add_case-CasesIn rows case launch cases h c.1)
]

pub group_cases-CasesIn :
    (rows : Rows Counts) (ks : List Key) (cases : List (Text × List Text))
    → Every (IsIn rows) ks
    → CasesIn rows cases
    → CasesIn rows (group_cases ks cases)
unfolding group_cases
group_cases-CasesIn rows [] cases h c = c
group_cases-CasesIn rows ([] ∷ ks) cases h c = group_cases-CasesIn rows ks cases h.1 c
group_cases-CasesIn rows ((case ∷ []) ∷ ks) cases h c = group_cases-CasesIn rows ks cases h.1 c
group_cases-CasesIn rows ((case ∷ launch ∷ []) ∷ ks) cases h c =
    group_cases-CasesIn rows ks (add_case case launch cases) h.1
      (add_case-CasesIn rows case launch cases h.0 c)
group_cases-CasesIn rows ((case ∷ launch ∷ x ∷ xs) ∷ ks) cases h c =
    group_cases-CasesIn rows ks cases h.1 c
