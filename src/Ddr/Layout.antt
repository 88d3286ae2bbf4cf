-- ===== src/Ddr/Layout.antt =====
-- What `Image.alloc` does to the image: the new buffer holds its words, lies on a line boundary
-- behind all that was there, and the rest is unchanged.
use simtix.Base.{
  ℕ, zero, suc, ◌+◌, ◌*◌, ◌%◌, ◌≤◌, ◌<◌, ◌≡◌, ◌≢◌, Option, none, refl, ◌⊎◌, inl, inr, List, [], ◌∷◌,
  some, arith, length, get_elem?, Dict, lookup, insert, lookup-insert, ◌==◌, Bool-cases, true,
  false,
}
use simtix.Base.Int.{ℤ, to_word, to_word-lt, word_mod}
use simtix.Ddr.{Image, ddr_base, store_words, alloc, init_or_zeros, line_floor}

-- The words of an image lie below its top, on word boundaries, and fit 32 bits.
pub record IsImage (img : Image) : Type 0 where
  pub base_le : ddr_base ≤ img.top
  pub aligned : img.top % 32 ≡ 0
  pub inside :
      (a w : ℕ)
      → lookup a img.words ≡ some w
      → (ddr_base ≤ a) × (a < img.top) × (a % 4 ≡ 0) × (w < word_mod)

pub store_words_below :
    (a addr : ℕ) (vals : List ℤ) (d : Dict ℕ)
    → a < addr
    → lookup a (store_words addr vals d) ≡ lookup a d
unfolding store_words
store_words_below a addr [] d h = refl
store_words_below a addr (v ∷ vals) d h = ground (
  arith,
  store_words_below a (addr + 4) vals (insert addr (to_word v) d),
  lookup-insert a addr (to_word v) d,
)

pub store_words_at :
    (addr i : ℕ) (v : ℤ) (vals : List ℤ) (d : Dict ℕ)
    → get_elem? vals i ≡ some v
    → lookup (addr + 4 * i) (store_words addr vals d) ≡ some (to_word v)
unfolding store_words
store_words_at addr i v [] d h = ground arith
store_words_at addr zero v (u ∷ vals) d h = ground (
  arith,
  store_words_below addr (addr + 4) vals (insert addr (to_word u) d),
  lookup-insert addr addr (to_word u) d,
)
store_words_at addr (suc i) v (u ∷ vals) d h =
    let e : addr + 4 * suc i ≡ addr + 4 + 4 * i = omega arith in
    rw e (store_words_at (addr + 4) i v vals (insert addr (to_word u) d) h)

store_words_inv :
    (a w addr : ℕ) (vals : List ℤ) (d : Dict ℕ)
    → lookup a (store_words addr vals d) ≡ some w
    → (lookup a d ≡ some w)
      ⊎ ((addr ≤ a) × (a < addr + 4 * length vals) × (a % 4 ≡ addr % 4) × (w < word_mod))
unfolding store_words
store_words_inv a w addr [] d h = inl h
store_words_inv a w addr (v ∷ vals) d h =
    elim (store_words_inv a w (addr + 4) vals (insert addr (to_word v) d) h) [
      | inl old ↦ ground (arith, lookup-insert a addr (to_word v) d, to_word-lt v)
      | inr new ↦ inr (omega arith)
    ]

pub store_words_above :
    (a addr : ℕ) (vals : List ℤ) (d : Dict ℕ)
    → addr + 4 * length vals ≤ a
    → lookup a (store_words addr vals d) ≡ lookup a d
unfolding store_words
store_words_above a addr [] d h = refl
store_words_above a addr (v ∷ vals) d h = ground (
  arith,
  store_words_above a (addr + 4) vals (insert addr (to_word v) d),
  lookup-insert a addr (to_word v) d,
)

-- A word that was stored is one of the list.
pub store_words_from :
    (a w addr : ℕ) (vals : List ℤ) (d : Dict ℕ)
    → lookup a (store_words addr vals d) ≡ some w
    → (lookup a d ≡ some w) ⊎ ((i : ℕ) × (i < length vals) × (a ≡ addr + 4 * i))
unfolding store_words
store_words_from a w addr [] d h = inl h
store_words_from a w addr (v ∷ vals) d h =
    elim (store_words_from a w (addr + 4) vals (insert addr (to_word v) d) h) [
      | inl old ↦ from_insert old (Bool-cases (a == addr))
      | inr (i, lt, e) ↦ inr (suc i, omega arith, omega arith)
    ]
  where
    from_insert :
        lookup a (insert addr (to_word v) d) ≡ some w
        → ((a == addr) ≡ true) ⊎ ((a == addr) ≡ false)
        → (lookup a d ≡ some w) ⊎ ((i : ℕ) × (i < length (v ∷ vals)) × (a ≡ addr + 4 * i))
    from_insert old (inl same) = inr (0, omega arith, ground arith)
    from_insert old (inr other) = inl (ground (arith, lookup-insert a addr (to_word v) d))

-- What a successful allocation of `vals` does.
pub record Allocated (img : Image) (addr : ℕ) (vals : List ℤ) (img' : Image) : Type 0 where
  pub placed : addr ≡ img.top
  pub room : addr + 4 * length vals ≤ img'.top
  pub filled :
      (i : ℕ) (v : ℤ)
      → get_elem? vals i ≡ some v
      → lookup (addr + 4 * i) img'.words ≡ some (to_word v)
  pub kept : (a : ℕ) → a < img.top → lookup a img'.words ≡ lookup a img.words
  pub valid : IsImage img'

abbrev after : List ℤ → Image → Image
after vals img = record {
  words = store_words img.top vals img.words;
  top = img.top + line_floor (4 * length vals + 31);
}

after-IsImage : (vals : List ℤ) (img : Image) → IsImage img → IsImage (after vals img)
after-IsImage vals img p = record {
  base_le = omega (arith, p.base_le);
  aligned = omega (arith, p.aligned);
  inside = λ a w h. elim (store_words_inv a w img.top vals img.words h) [
    | inl old ↦ let q = p.inside a w old in omega (arith, q)
    | inr new ↦ omega (arith, p.base_le, p.aligned)
  ];
}

after-Allocated :
    (vals : List ℤ) (img : Image) → IsImage img → Allocated img img.top vals (after vals img)
after-Allocated vals img p = record {
  placed = refl;
  room = omega arith;
  filled = λ i v h. store_words_at img.top i v vals img.words h;
  kept = λ a h. store_words_below a img.top vals img.words h;
  valid = after-IsImage vals img p;
}

-- In a well-formed image `alloc` of a list of the stated length succeeds: the buffer starts at the old top, on a line
-- boundary, holds the words of the list, and every word below it keeps its value.
pub alloc-Allocated :
    (n : ℕ) (init : Option (List ℤ)) (img : Image)
    → IsImage img
    → length (init_or_zeros n init) ≡ n
    → (img' : Image) × (alloc n init img ≡ some (img.top, img'))
      × Allocated img img.top (init_or_zeros n init) img'
      × (img.top % 32 ≡ 0)
unfolding alloc
alloc-Allocated n init img p len = (
  after (init_or_zeros n init) img,
  ground arith,
  after-Allocated (init_or_zeros n init) img p,
  p.aligned,
)

-- A list of another length is refused.
alloc_refuses :
    (n : ℕ) (vals : List ℤ) (img : Image) → length vals ≢ n → alloc n (some vals) img ≡ none
unfolding alloc
alloc_refuses n vals img h = ground arith
