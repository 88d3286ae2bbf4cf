-- ===== src/Fp/Accumulate.antt =====
-- A sum of products as the generators compute it: a loop of fused multiply-adds from 0.
use simtix.Base.{ℕ, ◌^◌, ◌≤◌, ◌≡◌, refl, arith, List, [], ◌∷◌, Option, some, ◌∈◌, inl, inr}
use simtix.Base.Partial.{◌>>=◌}
use simtix.Fp.{Fraction, f2fr, fma, add_fr, mul_fr}
use simtix.Fp.Units.{units}
use simtix.Fp.Correct.{IsNearestWord}
use simtix.Fp.Bounds.{f2fr-IsBounded, fma-Rounds, two_25-IsBarrier, finite_of_units}

-- `for j in js: acc = fma(x, y, acc)`, where `operands j` are the loop's x and y.
unfoldable pub accumulate : (ℕ → Option (ℕ × ℕ)) → List ℕ → ℕ → Option ℕ
accumulate operands [] acc = some acc
accumulate operands (j ∷ js) acc = do
  (x, y) ← operands j
  acc' ← fma x y acc
  accumulate operands js acc'

-- From `acc` the sum arrives at `r`: in each step the exact x * y + acc, rounded once.
pub data Accumulates (operands : ℕ → Option (ℕ × ℕ)) : List ℕ → ℕ → ℕ → Type 0 where
  done : {acc : ℕ} → Accumulates operands [] acc acc
  step :
      {j : ℕ} {js : List ℕ} {acc next r x y : ℕ} {xf yf af : Fraction}
      → operands j ≡ some (x, y)
      → f2fr x ≡ some xf
      → f2fr y ≡ some yf
      → f2fr acc ≡ some af
      → IsNearestWord (add_fr (mul_fr xf yf) af) next
      → Accumulates operands js next r
      → Accumulates operands (j ∷ js) acc r

-- The word 1.0, and the word 2^25.
abbrev pub one : ℕ
one = 0x3f80_0000

abbrev pub sum_barrier : ℕ
sum_barrier = 0x4c00_0000

-- Both operands exist and lie between -1.0 and 1.0.
pub record AreUnit (o : Option (ℕ × ℕ)) : Type 0 where
  pub first : ℕ
  pub second : ℕ
  pub read : o ≡ some (first, second)
  pub first-le : units first ≤ units one
  pub second-le : units second ≤ units one

-- A sum of products of numbers between -1.0 and 1.0, of any length, never overflows: every step is
-- one correct rounding, and rounding stops the sum at 2^25.
pub accumulate_total :
    (operands : ℕ → Option (ℕ × ℕ)) (js : List ℕ) (acc : ℕ)
    → ((j : ℕ) → j ∈ js → AreUnit (operands j))
    → units acc ≤ units sum_barrier
    → (r : ℕ) × (accumulate operands js acc ≡ some r)
      × (units r ≤ units sum_barrier)
      × Accumulates operands js acc r
unfolding accumulate
accumulate_total operands [] acc unit small = (acc, refl, small, done)
accumulate_total operands (j ∷ js) acc unit small =
    let u = unit j (inl refl) in
    let (xf, px) =
      f2fr-IsBounded (units one) u.first u.first-le
        (finite_of_units _ (omega (arith, u.first-le))) in
    let (yf, py) =
      f2fr-IsBounded (units one) u.second u.second-le
        (finite_of_units _ (omega (arith, u.second-le))) in
    let (af, pa) =
      f2fr-IsBounded (units sum_barrier) acc small (finite_of_units _ (omega (arith, small))) in
    let next =
      fma-Rounds (units one) (units one) sum_barrier (2 ^ 149) two_25-IsBarrier u.first u.second xf
        yf px py (units one) (units sum_barrier) acc af pa (omega arith) (omega arith) in
    let (r, e, le, steps) =
      accumulate_total operands js next.word (λ i m. unit i (inr m)) next.within in
    (r, rw (u.read, next.made) e, le, step u.read px.made py.made pa.made next.nearest steps)
