-- ===== src/Ddr/Readmemh/RoundTrip.antt =====
-- Reading the file of Image.write back gives the image.
use simtix.Base.{
  ℕ, ◌+◌, ◌-◌, ◌*◌, ◌/◌, ◌%◌, ◌≤◌, ◌<◌, ◌≡◌, refl, ◌≢◌, ◌⊎◌, inl, inr, List, [], ◌∷◌, Option, none,
  some, arith, Dict, lookup, insert, keys, mem-keys, keys-lookup, lookup-insert, ◌==◌,
  if◌then◌else◌, ◌∈◌, ◌∙◌, ap, Option-cases, true, false, Bool-cases,
}
use simtix.Base.Arith.{mod_close}
use simtix.Base.Sort.{sorted, mem-sorted, sorted-mem}
use simtix.Ddr.{Image, ddr_base, word_index}
use simtix.Ddr.Layout.{IsImage}
use simtix.Ddr.Readmemh.{Line, emit, write_lines, write, readmemh}

-- The pointer after the last line written is where the next word goes, or an `@` line is written.
abbrev PointsAfter : ℕ → Option ℕ → Type 0
PointsAfter ptr none = Unit
PointsAfter ptr (some p) = ptr ≡ p + 1

abbrev AllIn : List ℕ → Dict ℕ → Type 0
AllIn [] d = Unit
AllIn (a ∷ addrs) d = (lookup a d ≢ none) × AllIn addrs d

-- The words in address order, each stored at its index.
store_at : ℕ → List ℕ → Dict ℕ → Dict ℕ → Dict ℕ
store_at size [] d mem = mem
store_at size (a ∷ addrs) d mem = elim (lookup a d) [
  | none ↦ mem
  | some w ↦ store_at size addrs d (insert (word_index size a) w mem)
]

readmemh-emit :
    (ptr i w : ℕ) (prev : Option ℕ) (ls : List Line) (mem : Dict ℕ)
    → PointsAfter ptr prev
    → readmemh ptr (emit prev i w ls) mem ≡ readmemh (i + 1) ls (insert i w mem)
unfolding readmemh emit
readmemh-emit ptr i w none ls mem h = refl
readmemh-emit ptr i w (some p) ls mem h = ground arith

readmemh-write_lines :
    (size ptr : ℕ) (prev : Option ℕ) (addrs : List ℕ) (d mem : Dict ℕ)
    → PointsAfter ptr prev
    → AllIn addrs d
    → (ls : List Line) × (write_lines size prev addrs d ≡ some ls)
      × (readmemh ptr ls mem ≡ store_at size addrs d mem)
unfolding write_lines store_at readmemh
readmemh-write_lines size ptr prev [] d mem h all = ([], refl, refl)
readmemh-write_lines size ptr prev (a ∷ addrs) d mem h all = elim (Option-cases (lookup a d)) [
  | inl missing ↦ absurd (all.0 missing)
  | inr (w, e) ↦
      let i = word_index size a in
      let (ls, wrote, read) =
        readmemh-write_lines size (i + 1) (some i) addrs d (insert i w mem) refl all.1 in
      (
        emit prev i w ls,
        rw (e, write_lines) (rw wrote),
        rw (e, store_at) (readmemh-emit ptr i w prev ls mem h ∙ read),
      )
]

-- Distinct addresses of the buffer area have distinct indices, as long as the area fits the memory.
module _ (size : ℕ) (d : Dict ℕ) where
  abbrev Separate : List ℕ → ℕ → Type 0
  Separate addrs a = (b : ℕ) → b ∈ addrs → word_index size b ≡ word_index size a → b ≡ a

  store_at_other :
      (addrs : List ℕ) (i : ℕ) (mem : Dict ℕ)
      → ((b : ℕ) → b ∈ addrs → word_index size b ≢ i)
      → lookup i (store_at size addrs d mem) ≡ lookup i mem
  unfolding store_at
  store_at_other [] i mem h = refl
  store_at_other (a ∷ addrs) i mem h = elim (Option-cases (lookup a d)) [
    | inl missing ↦ rw (missing, store_at)
    | inr (w, e) ↦
        rw (e, store_at)
          (store_at_other addrs i (insert (word_index size a) w mem) (λ b m. h b (inr m))
            ∙ ground (arith, lookup-insert i (word_index size a) w mem, h a (inl refl)))
  ]

  next :
      (b v w a : ℕ) (addrs : List ℕ) (mem : Dict ℕ)
      → (a ∈ (b ∷ addrs)) ⊎ (lookup (word_index size a) mem ≡ some w)
      → lookup b d ≡ some v
      → lookup a d ≡ some w
      → (word_index size b ≡ word_index size a → b ≡ a)
      → (a ∈ addrs) ⊎ (lookup (word_index size a) (insert (word_index size b) v mem) ≡ some w)
  next b v w a addrs mem m eb ea sep = elim m [
    | inl (inl here) ↦ inr (
        ground (
          arith,
          lookup-insert (word_index size a) (word_index size b) v mem,
          ap (word_index size) here,
          ap (λ (x : ℕ). lookup x d) here,
        ))
    | inl (inr there) ↦ inl there
    | inr old ↦ inr (
        ground (
          arith,
          lookup-insert (word_index size a) (word_index size b) v mem,
          λ (q : b ≡ a). ap (λ (x : ℕ). lookup x d) q,
        ))
  ]

  store_at_lem :
      (addrs : List ℕ) (a w : ℕ) (mem : Dict ℕ)
      → AllIn addrs d
      → lookup a d ≡ some w
      → Separate addrs a
      → (a ∈ addrs) ⊎ (lookup (word_index size a) mem ≡ some w)
      → lookup (word_index size a) (store_at size addrs d mem) ≡ some w
  unfolding store_at
  store_at_lem [] a w mem all found sep (inl m) = absurd m
  store_at_lem [] a w mem all found sep (inr h) = h
  store_at_lem (b ∷ addrs) a w mem all found sep m = elim (Option-cases (lookup b d)) [
    | inl missing ↦ absurd (all.0 missing)
    | inr (v, e) ↦
        rw (e, store_at)
          (store_at_lem addrs a w (insert (word_index size b) v mem) all.1 found
            (λ c mc. sep c (inr mc)) (next b v w a addrs mem m e found (sep b (inl refl))))
  ]

word_index-injective :
    (size top a b : ℕ)
    → top - ddr_base ≤ 4 * size
    → (ddr_base ≤ a) × (a < top) × (a % 4 ≡ 0)
    → (ddr_base ≤ b) × (b < top) × (b % 4 ≡ 0)
    → word_index size a ≡ word_index size b
    → a ≡ b
word_index-injective size top a b fits ha hb e =
    let q = mod_close size (a / 4) (b / 4) (omega arith) (omega arith) e in omega arith

AllIn-keys : (addrs : List ℕ) (d : Dict ℕ) → ((b : ℕ) → b ∈ addrs → b ∈ keys d) → AllIn addrs d
AllIn-keys [] d h = tt
AllIn-keys (a ∷ addrs) d h = (
  λ missing. let (v, e) = keys-lookup a d (h a (inl refl)) in cc,
  AllIn-keys addrs d (λ b m. h b (inr m)),
)

store_at_inv :
    (size i w : ℕ) (addrs : List ℕ) (d mem : Dict ℕ)
    → lookup i (store_at size addrs d mem) ≡ some w
    → (lookup i mem ≡ some w) ⊎ ((a : ℕ) × (lookup a d ≡ some w) × (word_index size a ≡ i))
unfolding store_at
store_at_inv size i w [] d mem h = inl h
store_at_inv size i w (a ∷ addrs) d mem h = elim (Option-cases (lookup a d)) [
  | inl missing ↦ inl (rw (missing, store_at) at h)
  | inr (v, e) ↦
      elim (store_at_inv size i w addrs d (insert (word_index size a) v mem)
        (rw (e, store_at) at h)) [
          | inl old ↦
              from_insert a v e (lookup-insert i (word_index size a) v mem) old
                (Bool-cases (i == word_index size a))
          | inr new ↦ inr new
        ]
]
  where
    from_insert :
        (a v : ℕ)
        → lookup a d ≡ some v
        → lookup i (insert (word_index size a) v mem)
          ≡ (if i == word_index size a then some v else lookup i mem)
        → lookup i (insert (word_index size a) v mem) ≡ some w
        → ((i == word_index size a) ≡ true) ⊎ ((i == word_index size a) ≡ false)
        → (lookup i mem ≡ some w) ⊎ ((a : ℕ) × (lookup a d ≡ some w) × (word_index size a ≡ i))
    from_insert a v e l old (inl same) = inr (a, ground arith, ground arith)
    from_insert a v e l old (inr other) = inl (ground arith)

-- The memory holds the image: the word of each address at its index, and nothing else.
pub record IsCopy (size : ℕ) (img : Image) (mem : Dict ℕ) : Type 0 where
  pub stored : (a w : ℕ) → lookup a img.words ≡ some w → lookup (word_index size a) mem ≡ some w
  pub only :
      (i w : ℕ)
      → lookup i mem ≡ some w
      → (a : ℕ) × (lookup a img.words ≡ some w) × (word_index size a ≡ i)

-- For a well-formed image whose area fits the memory of `size` words, `Image.write` gives a file, and
-- $readmemh of that file gives the image: the word of each address at its index, and nothing else.
pub readmemh-write :
    (size : ℕ) (img : Image)
    → IsImage img
    → img.top - ddr_base ≤ 4 * size
    → (ls : List Line) × (write size img ≡ some ls) × IsCopy size img (readmemh 0 ls [])
unfolding write
readmemh-write size img p fits =
    let addrs = sorted (keys img.words) in
    let all = AllIn-keys addrs img.words (λ b. mem-sorted b (keys img.words)) in
    let (ls, wrote, read) = readmemh-write_lines size 0 none addrs img.words [] tt all in
    (
      ls,
      wrote,
      record {
        stored = λ a w h. rw read (
            store_at_lem size img.words addrs a w [] all h (separate a w h)
              (inl (sorted-mem a (keys img.words) (mem-keys a w img.words h))));
        only = λ i w h. back i w (store_at_inv size i w addrs img.words [] (rw read at h));
      },
    )
  where
    separate :
        (a w : ℕ)
        → lookup a img.words ≡ some w
        → Separate size img.words (sorted (keys img.words)) a
    separate a w h b m e =
        let (v, hb) = keys-lookup b img.words (mem-sorted b (keys img.words) m) in
        let qa = p.inside a w h in
        let qb = p.inside b v hb in
        word_index-injective size img.top b a fits (qb.0, qb.1, qb.2) (qa.0, qa.1, qa.2) e

    back :
        (i w : ℕ)
        → (lookup i [] ≡ some w)
          ⊎ ((a : ℕ) × (lookup a img.words ≡ some w) × (word_index size a ≡ i))
        → (a : ℕ) × (lookup a img.words ≡ some w) × (word_index size a ≡ i)
    back i w (inl nothing) = cc
    back i w (inr found) = found
