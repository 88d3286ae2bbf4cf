-- ===== src/Apps/Mlp/Packed.antt =====
-- The packed words, the padded widths and the requantised rows of mlp in sim/gen_apps.py.
use native.Mathlib.Nat.{mul_assoc, mul_comm}
use mathlib.Core.Path.{subst}
use mathlib.Core.List.{flatten}
use simtix.Base.{
  ℕ, zero, suc, ◌+◌, ◌-◌, ◌*◌, ◌/◌, ◌%◌, ◌^◌, ◌≤◌, ◌<◌, ◌≡◌, refl, sym, ap, ◌∙◌, arith, List, [],
  ◌∷◌, map, some, ltb, leb, Bool-cases, inl, inr, length, length-append, length-map, get_or,
  get_elem?-eq-get_or, range_from, length-range_from,
}
use simtix.Base.Int.{ℤ, pos}
use simtix.Base.Pow.{bit_length, bit_length_bounds, pow_suc, pow_mono}
use simtix.Apps.Gen.{traverse}
use simtix.Apps.Loops.{rows, CollectsRows, rows-CollectsRows}
use simtix.Apps.Quant.{pack8, to_byte}
use simtix.Apps.Quant.Pack.{IsInt8, unpack_word, unpack, unpack-pack8}
use simtix.Apps.Mlp.{padded, item, packed, pack_rows}
use simtix.Apps.Mlp.Matrix.{All, All-get_elem?, IsRow, IsMatrix, IsInput, row_times, times}

power_four : (b : ℕ) → 8 < 2 ^ b → 2 ^ b % 4 ≡ 0
power_four zero h = absurd (omega arith)
power_four (suc zero) h = absurd (omega arith)
power_four (suc (suc b)) h = omega (arith, pow_suc (suc b), pow_suc b)

pub padded-mod_four : (n : ℕ) → padded n % 4 ≡ 0
unfolding padded
padded-mod_four n = elim (Bool-cases (ltb 8 (2 ^ bit_length (n - 1)))) [
  | inl big ↦ rw (big, padded) (power_four _ (ground arith))
  | inr small ↦ rw (small, padded) refl
]

bit_length-le : (m : ℕ) → m < 2 ^ 18 → 2 ^ bit_length m ≤ 2 ^ 18
unfolding bit_length
bit_length-le zero h = omega arith
bit_length-le (suc m) h =
    let b = bit_length (suc m) in
    let small = (bit_length_bounds (suc m)).1 (omega arith) in
    elim (Bool-cases (leb b 18)) [
      | inl le ↦ pow_mono b 18 (ground arith)
      | inr gt ↦
          let above : 19 ≤ b = ground arith in absurd (omega (arith, small, pow_mono 19 b above))
    ]

pub padded-le : (n : ℕ) → n ≤ 2 ^ 18 → padded n ≤ 2 ^ 18
unfolding padded
padded-le n h = ground (arith, bit_length-le (n - 1) (omega arith))

-- The word of the weights in rows 4 kk to 4 kk + 3 of a column.
abbrev weight_at : List (List ℤ) → ℕ → ℕ → ℤ
weight_at w r col = get_or (get_or w r []) col (pos 0)

abbrev pub IsPackedWord : List (List ℤ) → ℕ → ℕ → ℕ → Type 0
IsPackedWord w kk col v =
    unpack_word v
    ≡ weight_at w (4 * kk) col
      ∷ weight_at w (4 * kk + 1) col
      ∷ weight_at w (4 * kk + 2) col
      ∷ weight_at w (4 * kk + 3) col
      ∷ []

item-weight_at :
    (w : List (List ℤ)) (k n r col : ℕ)
    → IsMatrix IsInt8 k n w
    → r < k
    → col < n
    → (item w r col ≡ some (weight_at w r col)) × IsInt8 (weight_at w r col)
unfolding item
item-weight_at w k n r col (len, h) lr lc =
    let row = get_or w r [] in
    let found = get_elem?-eq-get_or w r [] (omega arith) in
    let (width, each) = All-get_elem? (IsRow IsInt8 n) w r row h found in
    let at = get_elem?-eq-get_or row col (pos 0) (omega arith) in
    (rw (found, at, item) refl, All-get_elem? IsInt8 row col _ each at)

packed-IsPackedWord :
    (w : List (List ℤ)) (k n kk col : ℕ)
    → IsMatrix IsInt8 k n w
    → kk < k / 4
    → col < n
    → (v : ℕ) × (packed w kk col ≡ some v) × IsPackedWord w kk col v
unfolding packed traverse pack8 unpack unpack_word
packed-IsPackedWord w k n kk col h lk lc =
    let (e0, p0) = item-weight_at w k n (4 * kk) col h (omega arith) lc in
    let (e1, p1) = item-weight_at w k n (4 * kk + 1) col h (omega arith) lc in
    let (e2, p2) = item-weight_at w k n (4 * kk + 2) col h (omega arith) lc in
    let (e3, p3) = item-weight_at w k n (4 * kk + 3) col h (omega arith) lc in
    let a = weight_at w (4 * kk) col in
    let b = weight_at w (4 * kk + 1) col in
    let c = weight_at w (4 * kk + 2) col in
    let d = weight_at w (4 * kk + 3) col in
    let first : 4 * kk + 0 ≡ 4 * kk = omega arith in
    (
      to_byte a + to_byte b * 2 ^ 8 + to_byte c * 2 ^ 16 + to_byte d * 2 ^ 24,
      rw (ap (λ i. item w i col) first ∙ e0, e1, e2, e3, packed, traverse) refl,
      unpack-pack8 (a ∷ b ∷ c ∷ d ∷ []) (p0, (p1, (p2, (p3, tt)))) refl,
    )

-- The loop that packs the weights: word kk * n + col holds the weights in four rows of a column.
pub pack_weights-CollectsRows :
    (w : List (List ℤ)) (k n : ℕ)
    → IsMatrix IsInt8 k n w
    → CollectsRows (IsPackedWord w) 0 (k / 4) n (rows (packed w) n 0 (k / 4))
pack_weights-CollectsRows w k n h =
    rows-CollectsRows (packed w) (IsPackedWord w) 0 (k / 4) n
      λ kk col lk lc. packed-IsPackedWord w k n (0 + kk) col h (omega arith) lc

pub length-pack8 : (l : List ℤ) (q : ℕ) → length l ≡ 4 * q → length (pack8 l) ≡ q
unfolding pack8
length-pack8 [] q e = omega arith
length-pack8 (a ∷ []) q e = absurd (omega arith)
length-pack8 (a ∷ b ∷ []) q e = absurd (omega arith)
length-pack8 (a ∷ b ∷ c ∷ []) q e = absurd (omega arith)
length-pack8 (a ∷ b ∷ c ∷ d ∷ l) zero e = absurd (omega arith)
length-pack8 (a ∷ b ∷ c ∷ d ∷ l) (suc q) e = ap suc (length-pack8 l q (omega arith))

pub length-flatten :
    {A : Type 0} (x : List (List A)) (q : ℕ)
    → All (λ row. length row ≡ q) x
    → length (flatten x) ≡ length x * q
unfolding flatten
length-flatten [] q h = omega arith
length-flatten (row ∷ x) q (e, h) =
    omega (arith, length-append row (flatten x), length-flatten x q h)

length-pack_each :
    (x : List (List ℤ)) (q : ℕ)
    → All (IsRow IsInput (4 * q)) x
    → All (λ l. length l ≡ q) (map pack8 x)
length-pack_each [] q h = tt
length-pack_each (row ∷ x) q ((e, r), h) = (length-pack8 row q e, length-pack_each x q h)

-- m rows of n items, where four divides n, are packed into m * n / 4 words.
pub length-pack_rows :
    (x : List (List ℤ)) (m n : ℕ)
    → IsMatrix IsInput m n x
    → n % 4 ≡ 0
    → length (pack_rows x) ≡ m * n / 4
length-pack_rows x m n (len, h) four =
    let q = n / 4 in
    let e : n ≡ 4 * q = omega arith in
    let p : m * n ≡ 4 * (m * q) =
      ap (λ t. m * t) e
      ∙ sym (mul_assoc m 4 q)
      ∙ ap (λ t. t * q) (mul_comm m 4)
      ∙ mul_assoc 4 m q in
    let words =
      length-flatten (map pack8 x) q
        (length-pack_each x q (subst (λ t. All (IsRow IsInput t) x) e h)) in
    let count : length (map pack8 x) ≡ m = length-map pack8 x ∙ len in
    let total : length (pack_rows x) ≡ m * q = words ∙ ap (λ t. t * q) count in
    omega (arith, p, total)

-- The products of m inputs are m * n numbers.
pub length-flatten-times :
    (x w : List (List ℤ)) (n : ℕ) → length (flatten (times x w n)) ≡ length x * n
length-flatten-times x w n =
    length-flatten (times x w n) n (widths x)
    ∙ ap (λ t. t * n) (length-map (λ row. map (row_times row w) (range_from 0 n)) x)
  where
    widths : (x : List (List ℤ)) → All (λ row. length row ≡ n) (times x w n)
    widths [] = tt
    widths (row ∷ x) =
        (length-map (row_times row w) (range_from 0 n) ∙ length-range_from 0 n, widths x)
