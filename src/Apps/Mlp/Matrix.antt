-- ===== src/Apps/Mlp/Matrix.antt =====
-- Matrices of small integers, and the products of mlp in sim/gen_apps.py.
use native.Mathlib.Nat.{mul-le-mul}
use simtix.Base.{
  ℕ, zero, suc, ◌+◌, ◌*◌, ◌≤◌, ◌<◌, ◌≡◌, refl, sym, ap, ◌∙◌, arith, List, [], ◌∷◌, map, Option,
  some, length, get_elem?, get_or, get_elem?-eq-get_or, range_from,
}
use mathlib.Core.Path.{subst}
use mathlib.Core.Option.{some-injective}
use simtix.Base.Int.{ℤ, pos, negsuc, ◌+ℤ◌, ◌*ℤ◌, pos_part, neg_part}
use simtix.Base.Partial.{◌>>=◌}
use simtix.Fp.{magnitude}
use simtix.Apps.Gen.{traverse}
use simtix.Apps.Mlp.{item, sum, dot, products}

module _ {A : Type 0} where
  abbrev pub All : (A → Type 0) → List A → Type 0
  All P [] = Unit
  All P (x ∷ xs) = P x × All P xs

  pub All-get_elem? :
      (P : A → Type 0) (xs : List A) (i : ℕ) (x : A) → All P xs → get_elem? xs i ≡ some x → P x
  All-get_elem? P [] i x h e = cc
  All-get_elem? P (y ∷ xs) zero x (p, h) e = subst P (some-injective _ _ e) p
  All-get_elem? P (y ∷ xs) (suc i) x (p, h) e = All-get_elem? P xs i x h e

-- m rows of n items in P.
abbrev pub IsRow : (ℤ → Type 0) → ℕ → List ℤ → Type 0
IsRow P n row = (length row ≡ n) × All P row

abbrev pub IsMatrix : (ℤ → Type 0) → ℕ → ℕ → List (List ℤ) → Type 0
IsMatrix P m n x = (length x ≡ m) × All (IsRow P n) x

pub IsMatrix-weaken :
    (P Q : ℤ → Type 0) (m n : ℕ) (x : List (List ℤ))
    → ((v : ℤ) → P v → Q v)
    → IsMatrix P m n x
    → IsMatrix Q m n x
IsMatrix-weaken P Q m n x h (len, rows) = (len, every x rows)
  where
    items : (row : List ℤ) → All P row → All Q row
    items [] p = tt
    items (v ∷ row) (p, ps) = (h v p, items row ps)

    every : (x : List (List ℤ)) → All (IsRow P n) x → All (IsRow Q n) x
    every [] r = tt
    every (row ∷ x) ((e, p), r) = ((e, items row p), every x r)

-- 0 ≤ v ≤ 127, and -64 ≤ v < 64
abbrev pub IsInput : ℤ → Type 0
IsInput v = (neg_part v ≡ 0) × (pos_part v ≤ 127)

abbrev pub IsWeight : ℤ → Type 0
IsWeight v = (pos_part v < 64) × (neg_part v ≤ 64)

-- A row times column `col`: item by item over the rows of the matrix.
unfoldable pub row_times : List ℤ → List (List ℤ) → ℕ → ℤ
row_times [] w col = pos 0
row_times (a ∷ row) [] col = pos 0
row_times (a ∷ row) (ws ∷ w) col = a *ℤ get_or ws col (pos 0) +ℤ row_times row w col

-- The matrix product, of which n columns are taken.
abbrev pub times : List (List ℤ) → List (List ℤ) → ℕ → List (List ℤ)
times x w n = map (λ row. map (row_times row w) (range_from 0 n)) x

magnitude_sum : (a b : ℤ) → magnitude (a +ℤ b) ≤ magnitude a + magnitude b
unfolding ◌+ℤ◌
magnitude_sum a b = ground arith

magnitude_product : (a v : ℤ) → IsInput a → IsWeight v → magnitude (a *ℤ v) ≤ 8128
unfolding ◌*ℤ◌
magnitude_product (pos p) (pos q) (na, pa) (pv, nv) =
    let small : q ≤ 64 = omega arith in ground (arith, mul-le-mul pa small)
magnitude_product (pos p) (negsuc q) (na, pa) (pv, nv) = ground (arith, mul-le-mul pa nv)
magnitude_product (negsuc p) v (na, pa) (pv, nv) = absurd (omega arith)

pub magnitude-row_times :
    (row : List ℤ) (w : List (List ℤ)) (col n : ℕ)
    → All IsInput row
    → All (IsRow IsWeight n) w
    → col < n
    → magnitude (row_times row w col) ≤ 8128 * length row
unfolding row_times
magnitude-row_times [] w col n h g lt = omega arith
magnitude-row_times (a ∷ row) [] col n h g lt = omega arith
magnitude-row_times (a ∷ row) (ws ∷ w) col n (ha, h) ((len, hw), g) lt =
    let v = get_or ws col (pos 0) in
    let at =
      All-get_elem? IsWeight ws col v hw (get_elem?-eq-get_or ws col (pos 0) (omega arith)) in
    omega (
      arith,
      magnitude_sum (a *ℤ v) (row_times row w col),
      magnitude_product a v ha at,
      magnitude-row_times row w col n h g lt,
    )

-- The factors and their sum.
sum-row_times :
    (f : ℕ → Option ℤ) (lo col : ℕ) (row : List ℤ) (w : List (List ℤ))
    → length row ≡ length w
    → ((i : ℕ) (a : ℤ) (ws : List ℤ)
        → get_elem? row i ≡ some a
        → get_elem? w i ≡ some ws
        → f (lo + i) ≡ some (a *ℤ get_or ws col (pos 0)))
    → (ps : List ℤ) × (traverse f (range_from lo (length row)) ≡ some ps)
      × (sum ps ≡ row_times row w col)
unfolding traverse sum row_times
sum-row_times f lo col [] w len h = ([], refl, refl)
sum-row_times f lo col (a ∷ row) [] len h = absurd (omega arith)
sum-row_times f lo col (a ∷ row) (ws ∷ w) len h =
    let here : lo ≡ lo + 0 = omega arith in
    let (ps, e, s) = sum-row_times f (suc lo) col row w (omega arith) λ i b vs p q.
      let next : suc lo + i ≡ lo + suc i = omega arith in ap f next ∙ h (suc i) b vs p q in
    (
      a *ℤ get_or ws col (pos 0) ∷ ps,
      rw (ap f here ∙ h 0 a ws refl refl, e, traverse) refl,
      ap (λ t. a *ℤ get_or ws col (pos 0) +ℤ t) s,
    )

module _ {A B : Type 0} (f : ℕ → Option B) (g : A → B) where
  -- A loop over the indices of a list.
  traverse_items :
      (lo : ℕ) (xs : List A)
      → ((i : ℕ) (a : A) → get_elem? xs i ≡ some a → f (lo + i) ≡ some (g a))
      → traverse f (range_from lo (length xs)) ≡ some (map g xs)
  unfolding traverse
  traverse_items lo [] h = refl
  traverse_items lo (x ∷ xs) h =
      let here : lo ≡ lo + 0 = omega arith in
      rw
        (
          ap f here ∙ h 0 x refl,
          traverse_items (suc lo) xs (λ i a e.
              let next : suc lo + i ≡ lo + suc i = omega arith in ap f next ∙ h (suc i) a e),
          traverse,
        )
        refl

traverse_range :
    {B : Type 0} (f : ℕ → Option B) (g : ℕ → B) (lo n : ℕ)
    → ((i : ℕ) → i < lo + n → f i ≡ some (g i))
    → traverse f (range_from lo n) ≡ some (map g (range_from lo n))
unfolding traverse
traverse_range f g lo zero h = refl
traverse_range f g lo (suc n) h =
    rw (h lo (omega arith), traverse_range f g (suc lo) n (λ i lt. h i (omega arith)), traverse)
      refl

dot-row_times :
    (x w : List (List ℤ)) (row : List ℤ) (b k n col : ℕ)
    → get_elem? x (0 + b) ≡ some row
    → length row ≡ k
    → length w ≡ k
    → All (IsRow IsWeight n) w
    → col < 0 + n
    → dot x w k (0 + b) col ≡ some (row_times row w col)
unfolding dot item
dot-row_times x w row b k n col e lr lw hw lt =
    let (ps, made, total) =
      sum-row_times (λ kk. do a ← item x (0 + b) kk; c ← item w kk col; some (a *ℤ c)) 0 col row w
        (lr ∙ sym lw)
        λ i a ws p q.
          let at : 0 + i ≡ i = omega arith in
          rw
            (
              e,
              ap (get_elem? row) at ∙ p,
              ap (get_elem? w) at ∙ q,
              get_elem?-eq-get_or ws col (pos 0)
                  (omega (arith, (All-get_elem? (IsRow IsWeight n) w i ws hw q).0, lt)),
              item,
            )
            refl in
    rw (sym lr, made, total, dot) refl

-- Every index of the loops is in range, and what they compute is the matrix product.
pub products-times :
    (x w : List (List ℤ)) (m k n : ℕ)
    → IsMatrix IsInput m k x
    → IsMatrix IsWeight k n w
    → products x w k m n ≡ some (times x w n)
unfolding products
products-times x w m k n (lx, hx) (lw, hw) =
    rw (sym lx, products)
      (traverse_items _ (λ row. map (row_times row w) (range_from 0 n)) 0 x
        λ b row e. traverse_range (dot x w k (0 + b)) (row_times row w) 0 n λ col lt.
          dot-row_times x w row b k n col
            (let at : 0 + b ≡ b = omega arith in ap (get_elem? x) at ∙ e)
            (All-get_elem? (IsRow IsInput k) x b row hx e).0 lw hw lt)
