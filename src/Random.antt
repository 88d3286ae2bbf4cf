-- ===== src/Random.antt =====
-- The random source of sim/gen_apps.py. Python's Mersenne twister and its doubles stand outside the
-- model: a source is a state with the operations that the generators call, and `IsRandom` is what
-- the Python documentation says of their results.
use Prim.Native.Nat.{ℕ, ◌≤◌, ◌<◌, ◌^◌}
use mathlib.Core.Bool.{Bool}
use mathlib.Core.List.{List}
use mathlib.Core.Path.{◌≡◌}
use simtix.Base.{length, ◌∈◌}
use simtix.Fp.Units.{units}

pub record Rng : Type 1 where
  pub State : Type 0
  pub Double : Type 0
  -- `randrange(n)`, for n > 0
  pub randrange : ℕ → State → ℕ × State
  -- `sample(range(n), k)`, for k ≤ n
  pub sample : ℕ → ℕ → State → List ℕ × State
  -- `getrandbits(k)`
  pub getrandbits : ℕ → State → ℕ × State
  -- `random() < 0.2`
  pub below_fifth : State → Bool × State
  -- `uniform(-1.0, 1.0)`, and the FP32 bits of a double
  pub uniform : State → Double × State
  pub pack_f32 : Double → ℕ

pub record IsRandom (R : Rng) : Type 0 where
  pub randrange-lt : (n : ℕ) (s : R.State) → 0 < n → (R.randrange n s).0 < n
  pub length-sample : (n k : ℕ) (s : R.State) → k ≤ n → length (R.sample n k s).0 ≡ k
  pub sample-lt : (n k i : ℕ) (s : R.State) → k ≤ n → i ∈ (R.sample n k s).0 → i < n
  pub getrandbits-lt : (k : ℕ) (s : R.State) → (R.getrandbits k s).0 < 2 ^ k
  -- A double between -1 and 1 is rounded to such an FP32 word.
  pub uniform-le : (s : R.State) → units (R.pack_f32 (R.uniform s).0) ≤ units 0x3f80_0000
  pub uniform-lt : (s : R.State) → R.pack_f32 (R.uniform s).0 < 2 ^ 32

-- `rand_f32`, as it is called: between -1.0 and 1.0
unfoldable pub rand_f32 : (R : Rng) → R.State → ℕ × R.State
rand_f32 R s = let (v, s') = R.uniform s in (R.pack_f32 v, s')
