-- ===== src/Tests/Source.antt =====
-- A source for the examples: a counter, which draws what its documentation allows.
use simtix.Base.{
  ℕ, ◌+◌, ◌%◌, ◌^◌, ◌≤◌, ◌<◌, arith, [], ◌∷◌, ◌==◌, if◌then◌else◌, range_from, length-range_from,
  Bool-cases, inl, inr,
}
use native.Mathlib.Nat.{mod-lt}
use simtix.Base.Pow.{pow_pos}
use simtix.Fp.Units.{units}
use simtix.Random.{Rng, IsRandom}
use simtix.Apps.Loops.{mem-range_from}
use simtix.Apps.Gen.{Config}

-- 0.5 and -0.25
abbrev word_of : ℕ → ℕ
word_of d = if d % 2 == 0 then 0x3f00_0000 else 0xbe80_0000

abbrev pub counter : Rng
counter = record {
  State = ℕ;
  Double = ℕ;
  randrange = λ n s. (s % n, s + 1);
  sample = λ n k s. (range_from 0 k, s + 1);
  getrandbits = λ k s. (s % 2 ^ k, s + 1);
  below_fifth = λ s. (s % 5 == 0, s + 1);
  uniform = λ s. (s, s + 1);
  pack_f32 = word_of;
}

pub counter-IsRandom : IsRandom counter
counter-IsRandom = record {
  randrange-lt = λ n s h. mod-lt s h;
  length-sample = λ n k s h. length-range_from 0 k;
  sample-lt = λ n k i s h m. omega (arith, mem-range_from i 0 k m);
  getrandbits-lt = λ k s. mod-lt s (pow_pos k);
  uniform-le = λ s. small s;
  uniform-lt = λ s. narrow s;
}
  where
    small : (d : ℕ) → units (word_of d) ≤ units 0x3f80_0000
    small d = elim (Bool-cases (d % 2 == 0)) [
      | inl e ↦ rw e (omega arith)
      | inr e ↦ rw e (omega arith)
    ]

    narrow : (d : ℕ) → word_of d < 2 ^ 32
    narrow d = elim (Bool-cases (d % 2 == 0)) [
      | inl e ↦ rw e (omega arith)
      | inr e ↦ rw e (omega arith)
    ]

-- Eight lanes, and a slot for every kernel.
abbrev pub eight : Config
eight = record {
  lanes = 8;
  slots =
      (0, 0)
      ∷ (1, 4)
      ∷ (2, 8)
      ∷ (3, 12)
      ∷ (4, 16)
      ∷ (5, 20)
      ∷ (6, 24)
      ∷ (7, 26)
      ∷ (8, 30)
      ∷ (9, 36)
      ∷ (10, 40)
      ∷ (11, 44)
      ∷ (12, 50)
      ∷ (13, 56)
      ∷ (14, 60)
      ∷ [];
}
