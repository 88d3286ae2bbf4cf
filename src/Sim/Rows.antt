-- ===== src/Sim/Rows.antt =====
-- Python dicts with tuples of strings as keys, in insertion order, as the scripts of sim/ use them.
use simtix.Base.{
  List, [], ◌∷◌, ◌++◌, Option, none, some, inl, inr, ◌⊎◌, Bool, true, false, Bool-cases, ◌≡◌, refl,
  sym, ap, ◌∙◌, if◌then◌else◌,
}
use mathlib.Core.Option.{some-injective}
use simtix.Base.Text.{Text, texts_eq, texts_eq-eq, texts_eq_self, texts_apart, texts_eq_flip}

abbrev pub Key : Type 0
Key = List Text

abbrev pub Rows : Type 0 → Type 0
Rows V = List (Key × V)

module _ {V : Type 0} where
  abbrev pub find : Key → Rows V → Option V
  find k [] = none
  find k (e ∷ d) = if texts_eq k e.0 then some e.1 else find k d

  -- `d[k] = v`: a key that is there keeps its place.
  abbrev pub put : Key → V → Rows V → Rows V
  put k v [] = (k, v) ∷ []
  put k v (e ∷ d) = let rest = put k v d in if texts_eq k e.0 then (k, v) ∷ d else e ∷ rest

  abbrev pub values : Rows V → List V
  values [] = []
  values (e ∷ d) = e.1 ∷ values d

  abbrev pub keys : Rows V → List Key
  keys [] = []
  keys (e ∷ d) = e.0 ∷ keys d

  -- A loop that sets one key after the other.
  abbrev pub put_all : List (Key × V) → Rows V → Rows V
  put_all [] d = d
  put_all (e ∷ es) d = put_all es (put e.0 e.1 d)

  -- The last value that such a loop sets for the key, or else the one from before.
  abbrev pub last_of : Key → List (Key × V) → Option V → Option V
  last_of k [] o = o
  last_of k (e ∷ es) o = last_of k es (if texts_eq k e.0 then some e.1 else o)

  -- No key stands twice.
  abbrev HasNo : Key → Rows V → Type 0
  HasNo k d = find k d ≡ none

  abbrev pub IsDict : Rows V → Type 0
  IsDict [] = Unit
  IsDict (e ∷ d) = HasNo e.0 d × IsDict d

  -- Two tests for two different keys cannot both hold.
  either_order :
      (j k l : Key) (x y z : Option V)
      → texts_eq k l ≡ false
      → (if texts_eq j l then y else if texts_eq j k then x else z)
        ≡ (if texts_eq j k then x else if texts_eq j l then y else z)
  either_order j k l x y z other = elim (Bool-cases (texts_eq j l)) [
    | inl at_l ↦ elim (Bool-cases (texts_eq j k)) [
      | inl at_k ↦
          absurd (texts_apart k l other (sym (texts_eq-eq j k at_k) ∙ texts_eq-eq j l at_l))
      | inr off_k ↦ rw (at_l, off_k) refl
    ]
    | inr off_l ↦ rw off_l refl
  ]

  pub find-put :
      (j k : Key) (v : V) (d : Rows V)
      → find j (put k v d) ≡ (if texts_eq j k then some v else find j d)
  find-put j k v [] = refl
  find-put j k v (e ∷ d) = elim (Bool-cases (texts_eq k e.0)) [
    | inl same ↦
        rw (same, texts_eq-eq k e.0 same) (twice (texts_eq j e.0) (some v) (some e.1) (find j d))
    | inr other ↦
        rw (other, find-put j k v d) (either_order j k e.0 (some v) (some e.1) (find j d) other)
  ]
    where
      twice :
          {A : Type 0} (b : Bool) (x y z : A)
          → (if b then x else z) ≡ (if b then x else if b then y else z)
      twice true x y z = refl
      twice false x y z = refl

  -- The loop's last value for a key is what the key has in the end.
  pub find-put_all :
      (j : Key) (es : List (Key × V)) (d : Rows V) → find j (put_all es d) ≡ last_of j es (find j d)
  find-put_all j [] d = refl
  find-put_all j (e ∷ es) d =
      find-put_all j es (put e.0 e.1 d) ∙ ap (last_of j es) (find-put j e.0 e.1 d)

  -- A second run of the loop ends with the same value.
  last_of_twice :
      (j : Key) (es : List (Key × V)) (o o' : Option V)
      → (last_of j es o ≡ last_of j es o') ⊎ ((p : Option V) → last_of j es p ≡ p)
  last_of_twice j [] o o' = inr (λ p. refl)
  last_of_twice j (e ∷ es) o o' = elim (Bool-cases (texts_eq j e.0)) [
    | inl at ↦ inl (rw at refl)
    | inr off ↦ rw off (last_of_twice j es o o')
  ]

  put-IsDict : (k : Key) (v : V) (d : Rows V) → IsDict d → IsDict (put k v d)
  put-IsDict k v [] h = (refl, tt)
  put-IsDict k v (e ∷ d) h = elim (Bool-cases (texts_eq k e.0)) [
    | inl same ↦ rw same (rw (texts_eq-eq k e.0 same) h.0, h.1)
    | inr other ↦
        rw other (find-put e.0 k v d ∙ rw (texts_eq_flip k e.0 other) h.0, put-IsDict k v d h.1)
  ]

  pub put_all-IsDict : (es : List (Key × V)) (d : Rows V) → IsDict d → IsDict (put_all es d)
  put_all-IsDict [] d h = h
  put_all-IsDict (e ∷ es) d h = put_all-IsDict es (put e.0 e.1 d) (put-IsDict e.0 e.1 d h)

  -- Dicts with the same keys in the same order and the same values are equal.
  dict_ext :
      (d e : Rows V)
      → IsDict d
      → IsDict e
      → keys d ≡ keys e
      → ((j : Key) → find j d ≡ find j e)
      → d ≡ e
  dict_ext [] [] hd he k f = refl
  dict_ext [] (y ∷ e) hd he k f = cc
  dict_ext (x ∷ d) [] hd he k f = cc
  dict_ext (x ∷ d) (y ∷ e) hd he k f =
      let same : x.0 ≡ y.0 = cc in
      let rest : keys d ≡ keys e = cc in
      let value : some x.1 ≡ some y.1 =
        sym (rw (texts_eq_self x.0) refl) ∙ f x.0 ∙ rw (same, texts_eq_self y.0) refl in
      let head : x ≡ y = pair_path x y same (some-injective x.1 y.1 value) in
      let tails = dict_ext d e hd.1 he.1 rest (λ j. tail_eq j same (Bool-cases (texts_eq j x.0))) in
      cc
    where
      pair_path : (x y : Key × V) → x.0 ≡ y.0 → x.1 ≡ y.1 → x ≡ y
      pair_path x y p q = cc

      tail_eq :
          (j : Key)
          → x.0 ≡ y.0
          → ((texts_eq j x.0 ≡ true) ⊎ (texts_eq j x.0 ≡ false))
          → find j d ≡ find j e
      tail_eq j same (inl at) =
          let here = texts_eq-eq j x.0 at in
          let absent_d : find x.0 d ≡ none = hd.0 in let absent_e : find y.0 e ≡ none = he.0 in cc
      tail_eq j same (inr off) =
          let off' : texts_eq j y.0 ≡ false = cc in sym (rw off refl) ∙ f j ∙ rw off' refl

  -- A key that is there.
  abbrev Has : Key → Rows V → Type 0
  Has k d = (v : V) × (find k d ≡ some v)

  keys-put : (k : Key) (v : V) (d : Rows V) → Has k d → keys (put k v d) ≡ keys d
  keys-put k v [] h = cc (h.1)
  keys-put k v (e ∷ d) h = elim (Bool-cases (texts_eq k e.0)) [
    | inl same ↦ rw same (ap (λ j. j ∷ keys d) (texts_eq-eq k e.0 same))
    | inr other ↦ rw other (ap (λ l. e.0 ∷ l) (keys-put k v d (h.0, sym (rw other refl) ∙ h.1)))
  ]

  Has-put : (j k : Key) (v : V) (d : Rows V) → (texts_eq j k ≡ true) ⊎ Has j d → Has j (put k v d)
  Has-put j k v d (inl same) = (v, find-put j k v d ∙ rw same refl)
  Has-put j k v d (inr h) = elim (Bool-cases (texts_eq j k)) [
    | inl same ↦ (v, find-put j k v d ∙ rw same refl)
    | inr other ↦ (h.0, find-put j k v d ∙ rw other h.1)
  ]

  -- All the loop's keys are there.
  abbrev HasAll : List (Key × V) → Rows V → Type 0
  HasAll [] d = Unit
  HasAll (e ∷ es) d = Has e.0 d × HasAll es d

  Has-put_all : (j : Key) (es : List (Key × V)) (d : Rows V) → Has j d → Has j (put_all es d)
  Has-put_all j [] d h = h
  Has-put_all j (e ∷ es) d h = Has-put_all j es (put e.0 e.1 d) (Has-put j e.0 e.1 d (inr h))

  HasAll-put_all : (es : List (Key × V)) (d : Rows V) → HasAll es (put_all es d)
  HasAll-put_all [] d = tt
  HasAll-put_all (e ∷ es) d = (
    Has-put_all e.0 es (put e.0 e.1 d) (Has-put e.0 e.0 e.1 d (inl (texts_eq_self e.0))),
    HasAll-put_all es (put e.0 e.1 d),
  )

  HasAll-put :
      (es : List (Key × V)) (k : Key) (v : V) (d : Rows V) → HasAll es d → HasAll es (put k v d)
  HasAll-put [] k v d h = tt
  HasAll-put (e ∷ es) k v d h = (Has-put e.0 k v d (inr h.0), HasAll-put es k v d h.1)

  keys-put_all : (es : List (Key × V)) (d : Rows V) → HasAll es d → keys (put_all es d) ≡ keys d
  keys-put_all [] d h = refl
  keys-put_all (e ∷ es) d h =
      keys-put_all es (put e.0 e.1 d) (HasAll-put es e.0 e.1 d h.1) ∙ keys-put e.0 e.1 d h.0

  -- Running the loop a second time changes nothing.
  pub put_all_twice :
      (es : List (Key × V)) (d : Rows V) → IsDict d → put_all es (put_all es d) ≡ put_all es d
  put_all_twice es d h =
      let once = put_all es d in
      dict_ext (put_all es once) once (put_all-IsDict es once (put_all-IsDict es d h))
        (put_all-IsDict es d h) (keys-put_all es once (HasAll-put_all es d))
        (λ j. find-put_all j es once ∙ again j)
    where
      again : (j : Key) → last_of j es (find j (put_all es d)) ≡ find j (put_all es d)
      again j = elim (last_of_twice j es (find j (put_all es d)) (find j d)) [
        | inl same ↦ same ∙ sym (find-put_all j es d)
        | inr idle ↦ idle (find j (put_all es d))
      ]

  pub put_all-append :
      (es fs : List (Key × V)) (d : Rows V) → put_all (es ++ fs) d ≡ put_all fs (put_all es d)
  put_all-append [] fs d = refl
  put_all-append (e ∷ es) fs d = put_all-append es fs (put e.0 e.1 d)

  -- The first entry of a dict keeps its key and its place.
  pub put_all-cons :
      (es : List (Key × V)) (e : Key × V) (d : Rows V)
      → (v : V) × (rest : Rows V) × (put_all es (e ∷ d) ≡ (e.0, v) ∷ rest)
  put_all-cons [] e d = (e.1, d, refl)
  put_all-cons (f ∷ es) e d = elim (Bool-cases (texts_eq f.0 e.0)) [
    | inl same ↦
        let (v, rest, q) = put_all-cons es (f.0, f.1) d in
        (v, rest, rw same (q ∙ ap (λ (k : Key). (k, v) ∷ rest) (texts_eq-eq f.0 e.0 same)))
    | inr other ↦ let (v, rest, q) = put_all-cons es e (put f.0 f.1 d) in (v, rest, rw other q)
  ]
