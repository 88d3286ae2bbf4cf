-- ===== src/Apps/Gen.antt =====
-- The state of a generator: the case that it builds and the random source. `none` is a raised
-- exception, which ends the program.
use simtix.Base.{
  ℕ, zero, suc, ◌+◌, List, [], ◌∷◌, Option, none, some, Bool, Dict, ltb, leb, if◌then◌else◌,
}
use simtix.Base.Int.{ℤ, ints}
use simtix.Kernels.{Kernel}
use simtix.Ddr.{alloc}
use simtix.Ddr.Case
use simtix.Ddr.Case.{Case, Tag}
use simtix.Random.{Rng}

-- The globals LANES and SLOTS.
pub record Config : Type 0 where
  pub lanes : ℕ
  pub slots : Dict ℕ

pub record Run (S : Type 0) : Type 0 where
  pub case : Case
  pub rng : S

abbrev pub Gen : Type 0 → Type 0 → Type 0
Gen S A = Run S → Option (A × Run S)

infixl 5 ◌>>=◌ ◌>>◌
abbrev pub ◌>>=◌ : {S A B : Type 0} → Gen S A → (A → Gen S B) → Gen S B
◌>>=◌ m f r = elim (m r) [ none ↦ none | some (a, r') ↦ f a r' ]

abbrev pub ◌>>◌ : {S A B : Type 0} → Gen S A → Gen S B → Gen S B
m >> k = m >>= λ _. k

module _ {S : Type 0} where
  abbrev pub pure : {A : Type 0} → A → Gen S A
  pure a r = some (a, r)

  -- A fallible computation with no effect.
  unfoldable pub lift : {A : Type 0} → Option A → Gen S A
  lift none r = none
  lift (some a) r = some (a, r)

  -- `assert b`
  unfoldable pub assert : Bool → Gen S (Unit {0})
  assert b r = if b then some (tt, r) else none

  -- A call of the random source.
  unfoldable pub draw : {A : Type 0} → (S → A × S) → Gen S A
  draw op r = let (a, s) = op r.rng in some (a, record r { rng = s })

  -- `[op(rng) for _ in range(n)]`
  unfoldable pub draws : {A : Type 0} → ℕ → (S → A × S) → S → List A × S
  draws zero op s = ([], s)
  draws (suc n) op s = let (a, s') = op s in let (l, s'') = draws n op s' in (a ∷ l, s'')

  -- `c.img.alloc`
  unfoldable pub alloc_words : ℕ → Option (List ℤ) → Gen S ℕ
  alloc_words n init r = elim (alloc n init r.case.img) [
    | none ↦ none
    | some (addr, img') ↦ some (addr, record r { case = record (r.case) { img = img' } })
  ]

  abbrev pub alloc_list : List ℕ → ℕ → Gen S ℕ
  alloc_list l n = alloc_words n (some (ints l))

  abbrev pub alloc_zeros : ℕ → Gen S ℕ
  alloc_zeros n = alloc_words n none

  -- `c.launch`
  unfoldable pub launch : Config → Tag → Kernel → List ℤ → ℕ → ℕ → Gen S (Unit {0})
  launch cfg tg kernel params threads blk r =
      elim (Case.launch cfg.slots tg kernel params threads blk r.case) [
        | none ↦ none
        | some c ↦ some (tt, record r { case = c })
      ]

  -- `c.expect`
  unfoldable pub expect : ℕ → List ℤ → Gen S (Unit {0})
  expect addr vals r = some (tt, record r { case = Case.expect addr vals r.case })

-- `rng.randrange(n)` and `rng.sample(range(n), k)`, which raise ValueError on an empty range and on
-- too small a population
module _ (R : Rng) where
  unfoldable pub randrange : ℕ → Gen R.State ℕ
  unfolding assert draw
  randrange n = do assert (ltb 0 n); draw (R.randrange n)

  unfoldable pub sample : ℕ → ℕ → Gen R.State (List ℕ)
  unfolding assert draw
  sample n k = do assert (leb k n); draw (R.sample n k)

  -- `rng.randint(0, n)`
  abbrev pub randint : ℕ → Gen R.State ℕ
  randint n = randrange (n + 1)

  -- A generator's result: the case, built from nothing.
  abbrev pub build : Gen R.State (Unit {0}) → Case → R.State → Option (Case × R.State)
  build g c s = elim (g (record { case = c; rng = s })) [
    | none ↦ none
    | some (_, r) ↦ some (r.case, r.rng)
  ]

-- `[f(x) for x in xs]` where f may raise
unfoldable pub traverse : {A B : Type 0} → (A → Option B) → List A → Option (List B)
traverse f [] = some []
traverse f (x ∷ xs) = elim (f x) [
  | none ↦ none
  | some y ↦ elim (traverse f xs) [ none ↦ none | some ys ↦ some (y ∷ ys) ]
]
