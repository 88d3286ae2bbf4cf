-- ===== src/Mnist/Parts.antt =====
-- The assignments to slices of the on-chip store in ml/mnist_quant.py: no part overwrites another.
use simtix.Base.{
  ℕ, zero, suc, ◌+◌, ◌≤◌, ◌<◌, ◌≡◌, refl, sym, ap, ◌∙◌, arith, List, [], ◌∷◌, ◌++◌, some, length,
  length-append, get_elem?, get_elem?-append_left, get_elem?-append_right, take, drop, ◌==◌, true,
  replicate, length-replicate,
}
use mathlib.Core.Path.{subst}
use simtix.Mnist.{Part, put, put_parts}

length-take : (a : ℕ) (xs : List ℕ) → a ≤ length xs → length (take a xs) ≡ a
length-take zero xs h = refl
length-take (suc a) [] h = absurd (omega arith)
length-take (suc a) (x ∷ xs) h = ap suc (length-take a xs (omega arith))

get_elem?-take : (a j : ℕ) (xs : List ℕ) → j < a → get_elem? (take a xs) j ≡ get_elem? xs j
get_elem?-take zero j xs h = absurd (omega arith)
get_elem?-take (suc a) j [] h = refl
get_elem?-take (suc a) zero (x ∷ xs) h = refl
get_elem?-take (suc a) (suc j) (x ∷ xs) h = get_elem?-take a j xs (omega arith)

length-drop : (a : ℕ) (xs : List ℕ) → a ≤ length xs → a + length (drop a xs) ≡ length xs
length-drop zero xs h = omega arith
length-drop (suc a) [] h = absurd (omega arith)
length-drop (suc a) (x ∷ xs) h = omega (arith, length-drop a xs (omega arith))

record Puts (a : ℕ) (words store s : List ℕ) : Type 0 where
  same_length : length s ≡ length store
  placed : (i : ℕ) → i < length words → get_elem? s (a + i) ≡ get_elem? words i
  below : (j : ℕ) → j < a → get_elem? s j ≡ get_elem? store j

put-Puts :
    (a n : ℕ) (words store : List ℕ)
    → length words ≡ n
    → a + n ≤ length store
    → (s : List ℕ) × (put a n words store ≡ some s) × Puts a words store s
unfolding put
put-Puts a n words store e fits =
    let here : (length words == n) ≡ true = ground arith in
    let front = take a store in
    let back = drop (a + n) store in
    let len = length-take a store (omega arith) in
    (
      front ++ words ++ back,
      rw (here, put) refl,
      record {
        same_length = omega (
          arith,
          length-append (front ++ words) back,
          length-append front words,
          len,
          e,
          length-drop (a + n) store fits,
        );
        placed = λ i lt.
            get_elem?-append_left (front ++ words) back (a + i)
              (omega (arith, length-append front words, len, lt))
            ∙ ap (λ t. get_elem? (front ++ words) (t + i)) (sym len)
            ∙ get_elem?-append_right front words i;
        below = λ j lt.
            get_elem?-append_left (front ++ words) back j
              (omega (arith, length-append front words, len, lt))
            ∙ get_elem?-append_left front words j (omega (arith, len, lt))
            ∙ get_elem?-take a j store lt;
      },
    )

-- The parts follow each other from `lo` on, up to `top` words.
abbrev Fits : ℕ → ℕ → List Part → Type 0
Fits lo top [] = lo ≤ top
Fits lo top ((a, n, words) ∷ parts) = (lo ≤ a) × (length words ≡ n) × Fits (a + n) top parts

-- Every part stands at its place.
abbrev pub AllPlaced : List ℕ → List Part → Type 0
AllPlaced s [] = Unit
AllPlaced s ((a, n, words) ∷ parts) =
    ((i : ℕ) → i < length words → get_elem? s (a + i) ≡ get_elem? words i) × AllPlaced s parts

Fits-le : (lo top : ℕ) (parts : List Part) → Fits lo top parts → lo ≤ top
Fits-le lo top [] h = h
Fits-le lo top ((a, n, words) ∷ parts) (le, e, h) = omega (arith, le, Fits-le (a + n) top parts h)

put_parts-AllPlaced :
    (parts : List Part) (lo : ℕ) (store : List ℕ)
    → Fits lo (length store) parts
    → (s : List ℕ) × (put_parts parts store ≡ some s)
      × (length s ≡ length store)
      × AllPlaced s parts
      × ((j : ℕ) → j < lo → get_elem? s j ≡ get_elem? store j)
unfolding put_parts
put_parts-AllPlaced [] lo store h = (store, refl, refl, tt, λ j lt. refl)
put_parts-AllPlaced ((a, n, words) ∷ parts) lo store (le, e, h) =
    let (s, made, p) = put-Puts a n words store e (Fits-le (a + n) (length store) parts h) in
    let (t, rest, len, all, below) =
      put_parts-AllPlaced parts (a + n) s
        (subst (λ k. Fits (a + n) k parts) (sym p.same_length) h) in
    (
      t,
      rw (made, put_parts) rest,
      len ∙ p.same_length,
      (λ i lt. below (a + i) (omega (arith, lt, e)) ∙ p.placed i lt, all),
      λ j lt. below j (omega (arith, lt, le)) ∙ p.below j (omega (arith, lt, le)),
    )

-- The same on a store of zeros.
pub put_parts-blank :
    (n : ℕ) (parts : List Part)
    → Fits 0 n parts
    → (s : List ℕ) × (put_parts parts (replicate n 0) ≡ some s) × (length s ≡ n) × AllPlaced s parts
put_parts-blank n parts h =
    let (s, made, len, all, _) =
      put_parts-AllPlaced parts 0 (replicate n 0)
        (subst (λ k. Fits 0 k parts) (sym (length-replicate n 0)) h) in
    (s, made, len ∙ length-replicate n 0, all)
