-- ===== src/Fp.antt =====
-- FP32 with one correct rounding per operation, as sim/gen_apps.py computes its expected results.
-- An FP32 word is a number below 2^32. Fractions are kept unreduced: `fr2f` reads only the value.
pub mod Value
pub mod Bounds
pub mod Accumulate
pub mod Correct
pub mod Nearest
pub mod Units
pub mod Scaled
pub mod Binade
pub mod Rounding
use simtix.Base.{
  ℕ, ◌+◌, ◌-◌, ◌*◌, ◌/◌, ◌%◌, ◌^◌, Bool, true, false, ◌&&◌, ◌||◌, Option, none, some, ltb, leb,
  ◌==◌, if◌then◌else◌,
}
use simtix.Base.Int.{ℤ, pos, negsuc, pos_part, neg_part, sub_ℕ, ◌+ℤ◌, ◌-ℤ◌, ◌*ℤ◌, ltb_ℤ}
use simtix.Base.Pow.{bit_length}
use simtix.Base.Partial.{◌>>=◌, guard}

-- `fractions.Fraction`: the denominator is positive.
pub record Fraction : Type 0 where
  pub num : ℤ
  pub den : ℕ

abbrev pub magnitude : ℤ → ℕ
magnitude v = pos_part v + neg_part v

-- `-v if s else v` on a numerator of no sign
abbrev pub with_sign : Bool → ℕ → ℤ
with_sign s n = if s then sub_ℕ 0 n else pos n

-- The fields of a word: `bits >> 31`, `(bits >> 23) & 0xFF`, `bits & 0x7F_FFFF`.
abbrev pub sign_field : ℕ → ℕ
sign_field bits = bits / 2 ^ 31

abbrev pub exponent_field : ℕ → ℕ
exponent_field bits = bits / 2 ^ 23 % 2 ^ 8

abbrev pub mantissa_field : ℕ → ℕ
mantissa_field bits = bits % 2 ^ 23

-- The mantissa has fewer than 23 bits, so `(1 << 23) | m` is a sum.
unfoldable pub f2fr : ℕ → Option Fraction
f2fr bits =
    let s = sign_field bits in
    let e = exponent_field bits in
    let m = mantissa_field bits in
    if e == 255
    then none
    else some (
        if e == 0 then record { num = with_sign (ltb 0 s) m; den = 2 ^ 149 } else record {
          num = with_sign (ltb 0 s) ((2 ^ 23 + m) * 2 ^ (e - 127));
          den = 2 ^ 23 * 2 ^ (127 - e);
        })

-- The largest e with 2^e ≤ n / d, from the bit lengths; `n << max(0, -e)` is a product.
unfoldable pub exponent : ℕ → ℕ → ℤ
exponent n d =
    let e = sub_ℕ (bit_length n) (bit_length d) in
    if ltb (n * 2 ^ neg_part e) (d * 2 ^ pos_part e) then e -ℤ pos 1 else e

-- `2 * rem > den or (2 * rem == den and mi & 1)`
unfoldable pub rounds_up : ℕ → ℕ → ℕ → Bool
rounds_up mi rem den = ltb den (2 * rem) || (2 * rem == den && mi % 2 == 1)

-- `divmod`, and the step up to the nearest integer with ties to even
unfoldable pub round_even : ℕ → ℕ → ℕ
unfolding rounds_up
round_even num den =
    let mi = num / den in let rem = num % den in if rounds_up mi rem den then mi + 1 else mi

abbrev pub max_ℤ : ℤ → ℤ → ℤ
max_ℤ a b = if ltb_ℤ a b then b else a

-- The mantissa of n / d at the exponent e, which is at least -126: q = e - 23 scales its last bit.
unfoldable pub mantissa : ℕ → ℕ → ℤ → ℕ
mantissa n d e =
    let q = e -ℤ pos 23 in
    if ltb_ℤ q (pos 0) then round_even (n * 2 ^ neg_part q) d else round_even n (d * 2 ^ pos_part q)

-- The word of a sign, a mantissa and an exponent; `none` is the failed assertion against overflow.
-- The fields do not overlap, so `|` is a sum.
unfoldable pub assemble : Bool → ℕ → ℤ → Option ℕ
assemble s mi e =
    let s_bit = if s then 2 ^ 31 else 0 in
    let (mi', e') = if mi == 2 ^ 24 then (2 ^ 23, e +ℤ pos 1) else (mi, e) in
    if leb (2 ^ 23) mi'
    then (let ef = e' +ℤ pos 127 in
        if ltb_ℤ ef (pos 255) then some (s_bit + pos_part ef * 2 ^ 23 + (mi' - 2 ^ 23)) else none)
    else some (s_bit + mi')

unfoldable pub fr2f : Fraction → Option ℕ
fr2f x =
    let n = magnitude x.num in
    let e = max_ℤ (exponent n x.den) (negsuc 125) in
    if n == 0 then some 0 else assemble (ltb_ℤ x.num (pos 0)) (mantissa n x.den e) e

unfoldable pub add_fr : Fraction → Fraction → Fraction
add_fr x y = record { num = x.num *ℤ pos y.den +ℤ y.num *ℤ pos x.den; den = x.den * y.den }

unfoldable pub mul_fr : Fraction → Fraction → Fraction
mul_fr x y = record { num = x.num *ℤ y.num; den = x.den * y.den }

unfoldable pub fadd : ℕ → ℕ → Option ℕ
fadd a b = do x ← f2fr a; y ← f2fr b; fr2f (add_fr x y)

unfoldable pub fmul : ℕ → ℕ → Option ℕ
fmul a b = do x ← f2fr a; y ← f2fr b; fr2f (mul_fr x y)

-- A fused multiply-add: one rounding.
unfoldable pub fma : ℕ → ℕ → ℕ → Option ℕ
fma a b c = do x ← f2fr a; y ← f2fr b; z ← f2fr c; fr2f (add_fr (mul_fr x y) z)
