-- ===== src/Tests/Numbers.antt =====
-- FP32 runs, and an example of each result on FP32 and INT8 numbers.
use simtix.Base.{ℕ, ◌≡◌, refl, arith, some, none, List, [], ◌∷◌, Option, ◌∈◌, ◌≤◌}
use simtix.Base.Int.{ℤ, pos, negsuc, ◌+ℤ◌, ◌-ℤ◌, ◌*ℤ◌}
use simtix.Base.Pow.{bit_length}
use simtix.Fp.{
  Fraction, fma, fadd, fmul, f2fr, fr2f, add_fr, mul_fr, exponent, mantissa, round_even, assemble,
}
use simtix.Fp.Units.{units}
use simtix.Fp.Correct.{IsNearestWord, fr2f-IsNearestWord, fr2f_total}
use simtix.Fp.Value.{IsValueOf, f2fr-IsValueOf, fr2f-f2fr}
use simtix.Fp.Accumulate.{accumulate, Accumulates, AreUnit, sum_barrier, accumulate_total}
use simtix.Apps.Quant.{pack8, requant}
use simtix.Apps.Quant.Pack.{unpack, unpack-pack8}
use simtix.Apps.Quant.Requant.{IsRequant, requant-IsRequant}
use simtix.Apps.Zbtest.{results}
use simtix.Apps.Zbtest.Meaning.{IsZb, results-IsZb}

-- 1.5 * 2.0 - 0.5 is 2.5
fma_run : fma 0x3fc0_0000 0x4000_0000 0xbf00_0000 ≡ some 0x4020_0000
unfolding fma f2fr fr2f exponent mantissa round_even assemble bit_length ◌+ℤ◌ ◌-ℤ◌ ◌*ℤ◌ add_fr
    mul_fr
fma_run = refl

-- The least subnormal is lost beside 1.0.
fadd_run : fadd 0x0000_0001 0x3f80_0000 ≡ some 0x3f80_0000
unfolding fadd f2fr fr2f exponent mantissa round_even assemble bit_length ◌+ℤ◌ ◌-ℤ◌ ◌*ℤ◌ add_fr
fadd_run = refl

fmul_overflow_run : fmul 0x7f00_0000 0x7f00_0000 ≡ none
unfolding fmul f2fr fr2f exponent mantissa round_even assemble bit_length ◌+ℤ◌ ◌-ℤ◌ ◌*ℤ◌ mul_fr
fmul_overflow_run = refl

-- The least normal number halved is subnormal.
fmul_subnormal_run : fmul 0x0080_0000 0xbf00_0000 ≡ some 0x8040_0000
unfolding fmul f2fr fr2f exponent mantissa round_even assemble bit_length ◌+ℤ◌ ◌-ℤ◌ ◌*ℤ◌ mul_fr
fmul_subnormal_run = refl

-- -1/3
abbrev third : Fraction
third = record { num = negsuc 0; den = 3 }

third_run : fr2f third ≡ some 0xbeaa_aaab
unfolding fr2f exponent mantissa round_even assemble bit_length ◌+ℤ◌ ◌-ℤ◌
third_run = refl

fr2f-IsNearestWord_example : IsNearestWord third 0xbeaa_aaab
fr2f-IsNearestWord_example = fr2f-IsNearestWord third 0xbeaa_aaab (omega arith) third_run

fr2f_total_example : (b : ℕ) × (fr2f third ≡ some b)
fr2f_total_example = fr2f_total third (omega arith) (omega arith)

f2fr-IsValueOf_example : (x : Fraction) × (f2fr 0xbf00_0000 ≡ some x) × IsValueOf 0xbf00_0000 x
f2fr-IsValueOf_example = f2fr-IsValueOf 0xbf00_0000 (omega arith)

fr2f-f2fr_example : (x : Fraction) × (f2fr 0x8000_0001 ≡ some x) × (fr2f x ≡ some 0x8000_0001)
fr2f-f2fr_example = fr2f-f2fr 0x8000_0001 (omega arith) (omega arith) (λ e. omega arith)

-- 0.5 and -0.25 in every step
abbrev halves : ℕ → Option (ℕ × ℕ)
halves j = some (0x3f00_0000, 0xbe80_0000)

halves-AreUnit : (j : ℕ) → j ∈ (0 ∷ 1 ∷ 2 ∷ []) → AreUnit (halves j)
halves-AreUnit j m = record {
  first = 0x3f00_0000;
  second = 0xbe80_0000;
  read = refl;
  first-le = omega arith;
  second-le = omega arith;
}

accumulate_total_example :
    (r : ℕ) × (accumulate halves (0 ∷ 1 ∷ 2 ∷ []) 0x3f80_0000 ≡ some r)
    × (units r ≤ units sum_barrier)
    × Accumulates halves (0 ∷ 1 ∷ 2 ∷ []) 0x3f80_0000 r
accumulate_total_example =
    accumulate_total halves (0 ∷ 1 ∷ 2 ∷ []) 0x3f80_0000 halves-AreUnit (omega arith)

-- The sum 1000 with the scale 2^-10 and the zero point 3.0
requant-IsRequant_example :
    (q : ℕ) × (requant (pos 1000) 0x3a80_0000 0x4040_0000 ≡ some q)
    × IsRequant (pos 1000) 0x3a80_0000 0x4040_0000 q
requant-IsRequant_example =
    requant-IsRequant (pos 1000) 0x3a80_0000 0x4040_0000 (omega arith) (omega arith) (omega arith)

abbrev weights : List ℤ
weights = pos 1 ∷ negsuc 0 ∷ pos 127 ∷ negsuc 127 ∷ []

pack8_run : pack8 weights ≡ 0x807f_ff01 ∷ []
unfolding pack8
pack8_run = refl

unpack-pack8_example : unpack (pack8 weights) ≡ weights
unpack-pack8_example =
    unpack-pack8 weights
      (
        (omega arith, omega arith),
        (
          (omega arith, omega arith),
          ((omega arith, omega arith), ((omega arith, omega arith), tt)),
        ),
      )
      refl

-- The most negative number and 3
results-IsZb_example : IsZb 0x8000_0000 3 (results 0x8000_0000 3)
results-IsZb_example = results-IsZb 0x8000_0000 3 (omega arith) (omega arith)
