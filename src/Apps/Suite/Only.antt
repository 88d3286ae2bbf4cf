-- ===== src/Apps/Suite/Only.antt =====
-- A seed for each application makes the option `--only` of sim/gen_apps.py safe.
use mathlib.Core.Option.{some-injective}
use mathlib.Core.Path.{subst}
use simtix.Base.{
  ℕ, suc, ◌+◌, ◌≡◌, refl, sym, inl, inr, ◌⊎◌, Bool, true, false, List, [], ◌∷◌, Option, none, some,
  Bool-cases, if◌then◌else◌, get_elem?,
}
use simtix.Base.Text.{Text, text_eq, text_eq-eq, text_eq_self}
use simtix.Base.Partial.{>>=-eq-some}
use simtix.Ddr.Case.{Case}
use simtix.Random.{Rng}
use simtix.Apps.Suite.{apps, seeds, seed_of, is_listed, wanted, Generator, with_case, by_seed}

-- The cases, in order, whose applications are wanted.
unfoldable pub selected : List Text → ℕ → List Case → List Case
unfolding wanted
selected only i [] = []
selected only i (c ∷ cs) =
    let rest = selected only (suc i) cs in
    elim (get_elem? apps i) [
      | none ↦ rest
      | some name ↦ if wanted only name then c ∷ rest else rest
    ]

-- `--only` is not given, or names the application.
abbrev IsNamed : List Text → Text → Type 0
IsNamed [] name = ⊥
IsNamed (key ∷ only) name = (key ≡ name) ⊎ IsNamed only name

abbrev IsWanted : List Text → Text → Type 0
IsWanted only name = (only ≡ []) ⊎ IsNamed only name

-- The cases `out` are those of `cs` whose applications, from the place `i` of APPS on, are wanted.
abbrev pub AreWanted : List Text → ℕ → List Case → List Case → Type 0
AreWanted only i [] out = out ≡ []
AreWanted only i (c ∷ cs) out =
    (name : Text) × (get_elem? apps i ≡ some name)
    × ((IsWanted only name × (rest : List Case) × (out ≡ c ∷ rest) × AreWanted only (suc i) cs rest)
        ⊎ (¬ IsWanted only name × AreWanted only (suc i) cs out))

IsNamed-cases :
    (only : List Text) (name : Text)
    → ((is_listed name only ≡ true) × IsNamed only name)
      ⊎ ((is_listed name only ≡ false) × ¬ IsNamed only name)
unfolding is_listed
IsNamed-cases [] name = inr (refl, λ h. h)
IsNamed-cases (key ∷ only) name = elim (Bool-cases (text_eq key name)) [
  | inl same ↦ inl (rw same refl, inl (text_eq-eq key name same))
  | inr other ↦ elim (IsNamed-cases only name) [
    | inl (e, h) ↦ inl (rw (other, e) refl, inr h)
    | inr (e, h) ↦ inr (
      rw (other, e) refl,
      λ k. elim k [
        | inl here ↦ differs (rw (← here) (text_eq_self key)) other
        | inr later ↦ h later
      ],
    )
  ]
]
  where
    differs : {b : Bool} → b ≡ true → b ≡ false → ⊥
    differs x y = cc

IsWanted-cases :
    (only : List Text) (name : Text)
    → ((wanted only name ≡ true) × IsWanted only name)
      ⊎ ((wanted only name ≡ false) × ¬ IsWanted only name)
unfolding wanted
IsWanted-cases [] name = inl (refl, inl refl)
IsWanted-cases (key ∷ only) name = elim (IsNamed-cases (key ∷ only) name) [
  | inl (e, h) ↦ inl (e, inr h)
  | inr (e, h) ↦ inr (e, λ k. elim k [ inl empty ↦ no_cons empty | inr named ↦ h named ])
]
  where
    no_cons : key ∷ only ≡ [] → ⊥
    no_cons e = cc

take_case :
    (only : List Text) (i : ℕ) (c : Case) (cs : List Case) (name : Text)
    → get_elem? apps i ≡ some name
    → wanted only name ≡ true
    → selected only i (c ∷ cs) ≡ c ∷ selected only (suc i) cs
unfolding selected
take_case only i c cs name h w = rw (h, w, selected) refl

drop_case :
    (only : List Text) (i : ℕ) (c : Case) (cs : List Case) (name : Text)
    → get_elem? apps i ≡ some name
    → wanted only name ≡ false
    → selected only i (c ∷ cs) ≡ selected only (suc i) cs
unfolding selected
drop_case only i c cs name h w = rw (h, w, selected) refl

module _ (R : Rng) (seeded : ℕ → R.State) where
  with_case-eq-some :
      (made : Option (Case × R.State)) (rest : Option (List Case)) (cs : List Case)
      → with_case R made rest ≡ some cs
      → (c : Case) × (s : R.State) × (cs' : List Case) × (made ≡ some (c, s))
        × (rest ≡ some cs')
        × (c ∷ cs' ≡ cs)
  unfolding with_case
  with_case-eq-some none rest cs e = cc
  with_case-eq-some (some (c, s)) none cs e = cc
  with_case-eq-some (some (c, s)) (some cs') cs e =
      (c, s, cs', refl, refl, some-injective (c ∷ cs') cs e)

  selects :
      (only : List Text) (i : ℕ) (fs : List (Generator R)) (cs : List Case)
      → by_seed R seeded [] i fs ≡ some cs
      → (by_seed R seeded only i fs ≡ some (selected only i cs))
        × AreWanted only i cs (selected only i cs)
  unfolding by_seed selected
  selects only i [] cs e =
      subst (λ l. (some [] ≡ some (selected only i l)) × AreWanted only i l (selected only i l))
        (some-injective [] cs e) (refl, refl)
  selects only i (f ∷ fs) cs e =
      let (name, h, g) = >>=-eq-some (get_elem? apps i) _ e in
      let (c, s, cs', made, rest, same) =
        with_case-eq-some (f (seeded (2027 + seed_of seeds name i)))
          (by_seed R seeded [] (suc i) fs) cs g in
      let (later, chosen) = selects only (suc i) fs cs' rest in
      subst
        (λ l.
          (by_seed R seeded only i (f ∷ fs) ≡ some (selected only i l))
          × AreWanted only i l (selected only i l))
        same
        (elim (IsWanted-cases only name) [
          | inl (yes_wanted, w) ↦ (
            rw (h, yes_wanted, made, later, by_seed, selected, with_case) refl,
            (
              name,
              h,
              inl (w, selected only (suc i) cs', take_case only i c cs' name h yes_wanted, chosen),
            ),
          )
          | inr (not_wanted, w) ↦ (
            rw (h, not_wanted, later, by_seed, selected) refl,
            (
              name,
              h,
              inr (
                w,
                subst (AreWanted only (suc i) cs') (sym (drop_case only i c cs' name h not_wanted))
                    chosen,
              ),
            ),
          )
        ])

  -- Where the run with a seed for each application makes all its cases, the run with `--only` makes
  -- exactly the ones of them that are wanted, those whose applications it names, or all if it names
  -- none, word for word and in the same order.
  pub by_seed-selected :
      (only : List Text) (fs : List (Generator R)) (cs : List Case)
      → by_seed R seeded [] 0 fs ≡ some cs
      → (by_seed R seeded only 0 fs ≡ some (selected only 0 cs))
        × AreWanted only 0 cs (selected only 0 cs)
  by_seed-selected only fs cs e = selects only 0 fs cs e
