-- ===== src/Draw/Hops.antt =====
-- The hops that `emit` of docs/figs/datapath_tikz/dp_engine.py draws.
use Prim.Native.String.{String}
use text.Mathlib.Text as Text
use text.Mathlib.TextEquality.{eq_iff}
use mathlib.Core.Path.{subst}
use simtix.Base.{
  List, [], ◌∷◌, ◌++◌, Bool, true, false, ◌&&◌, ◌⊎◌, inl, inr, Bool-cases, ◌≡◌, refl, ap, ◌∙◌,
  arith, if◌then◌else◌,
}
use simtix.Base.Int.{ℤ, ◌+ℤ◌, ◌-ℤ◌, ltb_ℤ, leb_ℤ, eqb_ℤ}
use simtix.Draw.Figure.{Segment}
use simtix.Draw.Crossings.{
  Crossing, is_horizontal, is_vertical, do_cross, select, crossings_of, crossings_from, crossings,
  margin,
}
use simtix.Draw.Emit.{
  hop, rounded_3, hops_at, inner_hops, insert_place, sort_places, backwards, hop_steps,
}

abbrev pub In : {A : Type 0} → A → List A → Type 0
In a [] = ⊥
In a (x ∷ xs) = (a ≡ x) ⊎ In a xs

module _ {A : Type 0} where
  pub In-left : (a : A) (xs ys : List A) → In a xs → In a (xs ++ ys)
  In-left a [] ys m = absurd m
  In-left a (x ∷ xs) ys (inl e) = inl e
  In-left a (x ∷ xs) ys (inr m) = inr (In-left a xs ys m)

  pub In-right : (a : A) (xs ys : List A) → In a ys → In a (xs ++ ys)
  In-right a [] ys m = m
  In-right a (x ∷ xs) ys m = inr (In-right a xs ys m)

  pub In-append : (a : A) (xs ys : List A) → In a (xs ++ ys) → In a xs ⊎ In a ys
  In-append a [] ys m = inr m
  In-append a (x ∷ xs) ys (inl e) = inl (inl e)
  In-append a (x ∷ xs) ys (inr m) = elim (In-append a xs ys m) [
    | inl p ↦ inl (inr p)
    | inr q ↦ inr q
  ]

  -- What a test keeps.
  In-kept :
      (a x : A) (b : Bool) (xs : List A)
      → In a (if b then x ∷ xs else xs)
      → ((b ≡ true) × (a ≡ x)) ⊎ In a xs
  In-kept a x true xs (inl e) = inl (refl, e)
  In-kept a x true xs (inr m) = inr m
  In-kept a x false xs m = inr m

  kept-In :
      (a x : A) (b : Bool) (xs : List A)
      → ((b ≡ true) × (a ≡ x)) ⊎ In a xs
      → In a (if b then x ∷ xs else xs)
  kept-In a x true xs (inl (e, f)) = inl f
  kept-In a x true xs (inr m) = inr m
  kept-In a x false xs (inl (e, f)) = cc
  kept-In a x false xs (inr m) = m

-- Each crossing is one of a horizontal and a vertical segment.
In-select :
    (p : Segment → Bool) (s : Segment) (segs : List Segment)
    → In s (select p segs)
    → In s segs × (p s ≡ true)
unfolding select
In-select p s [] m = absurd m
In-select p s (x ∷ segs) m = elim (In-kept s x (p x) (select p segs) m) [
  | inl (e, f) ↦ (inl f, ap p f ∙ e)
  | inr n ↦ let (q, r) = In-select p s segs n in (inr q, r)
]

abbrev pub crossing_at : Segment → Segment → Crossing
crossing_at h v = record { x = v.a.0; y = h.a.1; horizontal = h.net; vertical = v.net }

pub record Crosses (segs : List Segment) (c : Crossing) : Type 0 where
  pub h : Segment
  pub v : Segment
  pub among : In h segs
  pub level : is_horizontal h ≡ true
  pub across : do_cross h v ≡ true
  pub same : c ≡ crossing_at h v

In-crossings_of :
    (h : Segment) (vs : List Segment) (c : Crossing)
    → In c (crossings_of h vs)
    → (v : Segment) × (do_cross h v ≡ true) × (c ≡ crossing_at h v)
unfolding crossings_of
In-crossings_of h [] c m = absurd m
In-crossings_of h (v ∷ vs) c m =
    elim (In-kept c (crossing_at h v) (do_cross h v) (crossings_of h vs) m) [
      | inl (e, f) ↦ (v, e, f)
      | inr n ↦ In-crossings_of h vs c n
    ]

In-crossings_from :
    (hs vs : List Segment) (c : Crossing)
    → In c (crossings_from hs vs)
    → (h v : Segment) × In h hs × (do_cross h v ≡ true) × (c ≡ crossing_at h v)
unfolding crossings_from
In-crossings_from [] vs c m = absurd m
In-crossings_from (h ∷ hs) vs c m =
    elim (In-append c (crossings_of h vs) (crossings_from hs vs) m) [
      | inl p ↦ let (v, e, f) = In-crossings_of h vs c p in (h, v, inl refl, e, f)
      | inr q ↦ let (h', v, i, e, f) = In-crossings_from hs vs c q in (h', v, inr i, e, f)
    ]

pub crossings-Crosses :
    (segs : List Segment) (c : Crossing) → In c (crossings segs) → Crosses segs c
unfolding crossings
crossings-Crosses segs c m =
    let (h, v, i, e, f) =
      In-crossings_from (select is_horizontal segs) (select is_vertical segs) c m in
    let (j, k) = In-select is_horizontal h segs i in
    record { h = h; v = v; among = j; level = k; across = e; same = f }

-- A place that is recorded is drawn on the segment.
pub In-hops_at :
    (net : String) (y : ℤ) (cross : List Crossing) (c : Crossing)
    → In c cross
    → net ≡ c.horizontal
    → y ≡ c.y
    → In c.x (hops_at net y cross)
unfolding hops_at
In-hops_at net y [] c m e f = absurd m
In-hops_at net y (d ∷ cross) c (inl g) e f = kept-In c.x d.x _ (hops_at net y cross) (
    inl (
      matches net d.horizontal (rounded_3 y) (rounded_3 d.y)
          (e ∙ ap (λ (z : Crossing). z.horizontal) g)
          (ap rounded_3 (f ∙ ap (λ (z : Crossing). z.y) g)),
      ap (λ (z : Crossing). z.x) g,
    ))
  where
    matches : (s u : String) (x z : ℤ) → s ≡ u → x ≡ z → (Text.◌==◌ s u && eqb_ℤ x z) ≡ true
    matches s u x z p q = rw ((eq_iff s u).1 p) (subst (λ w. eqb_ℤ x w ≡ true) q (self x))
      where
        self : (x : ℤ) → eqb_ℤ x x ≡ true
        self x = ground arith
In-hops_at net y (d ∷ cross) c (inr m) e f =
    kept-In c.x d.x _ (hops_at net y cross) (inr (In-hops_at net y cross c m e f))

pub In-inner_hops :
    (l r x : ℤ) (xs : List ℤ)
    → In x xs
    → (ltb_ℤ (l +ℤ margin) x && ltb_ℤ x (r -ℤ margin)) ≡ true
    → In x (inner_hops l r xs)
unfolding inner_hops
In-inner_hops l r x [] m e = absurd m
In-inner_hops l r x (z ∷ xs) (inl f) e =
    kept-In x z _ (inner_hops l r xs)
      (inl (subst (λ w. (ltb_ℤ (l +ℤ margin) w && ltb_ℤ w (r -ℤ margin)) ≡ true) f e, f))
In-inner_hops l r x (z ∷ xs) (inr m) e =
    kept-In x z _ (inner_hops l r xs) (inr (In-inner_hops l r x xs m e))

In-insert_place : (x z : ℤ) (ys : List ℤ) → (x ≡ z) ⊎ In x ys → In x (insert_place z ys)
unfolding insert_place
In-insert_place x z [] m = m
In-insert_place x z (y ∷ ys) m = elim (Bool-cases (leb_ℤ z y)) [
  | inl e ↦ rw e m
  | inr e ↦ rw e (later (In-insert_place x z ys) m)
]
  where
    later :
        ((x ≡ z) ⊎ In x ys → In x (insert_place z ys))
        → (x ≡ z) ⊎ In x (y ∷ ys)
        → In x (y ∷ insert_place z ys)
    later go (inl f) = inr (go (inl f))
    later go (inr (inl f)) = inl f
    later go (inr (inr n)) = inr (go (inr n))

pub In-sort_places : (x : ℤ) (xs : List ℤ) → In x xs → In x (sort_places xs)
unfolding sort_places
In-sort_places x [] m = absurd m
In-sort_places x (z ∷ xs) (inl e) = In-insert_place x z (sort_places xs) (inl e)
In-sort_places x (z ∷ xs) (inr m) =
    In-insert_place x z (sort_places xs) (inr (In-sort_places x xs m))

pub In-backwards : (x : ℤ) (xs : List ℤ) → In x xs → In x (backwards xs)
unfolding backwards
In-backwards x [] m = absurd m
In-backwards x (z ∷ xs) (inl e) = In-right x (backwards xs) (z ∷ []) (inl e)
In-backwards x (z ∷ xs) (inr m) = In-left x (backwards xs) (z ∷ []) (In-backwards x xs m)

pub In-hop_steps :
    (rightward : Bool) (x y : ℤ) (xs : List ℤ)
    → In x xs
    → In (hop rightward x y) (hop_steps rightward y xs)
In-hop_steps rightward x y [] m = absurd m
In-hop_steps rightward x y (z ∷ xs) (inl e) = inl (ap (λ w. hop rightward w y) e)
In-hop_steps rightward x y (z ∷ xs) (inr m) = inr (In-hop_steps rightward x y xs m)
