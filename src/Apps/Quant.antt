-- ===== src/Apps/Quant.antt =====
-- The INT8 arithmetic of the MLP in sim/gen_apps.py: `requant` and `pack8`.
pub mod Pack
pub mod Requant
use simtix.Base.{ℕ, ◌+◌, ◌-◌, ◌*◌, ◌/◌, ◌%◌, ◌^◌, List, [], ◌∷◌, Option, Bool, ltb, if◌then◌else◌}
use simtix.Base.Int.{ℤ, pos, negsuc, ltb_ℤ, ◌*ℤ◌}
use mathlib.Core.Option.{some}
use simtix.Base.Partial.{◌>>=◌}
use simtix.Fp.{Fraction, magnitude, f2fr, fr2f, fma, round_even}

-- F127, the word of 127.0
abbrev pub f127 : ℕ
f127 = 0x42fe_0000

-- `x < y` on fractions
abbrev pub less : Fraction → Fraction → Bool
less x y = ltb_ℤ (x.num *ℤ pos y.den) (y.num *ℤ pos x.den)

abbrev pub zero_fraction : Fraction
zero_fraction = record { num = pos 0; den = 1 }

-- `min(max(v, Fraction(0)), top)`: Python keeps the first of two equal values.
unfoldable pub clamp : Fraction → Fraction → Fraction
clamp v top =
    let low = if less v zero_fraction then zero_fraction else v in if less top low then top else low

-- `round` on a fraction that is not negative
abbrev pub round : Fraction → ℕ
round x = round_even (magnitude x.num) x.den

unfoldable pub requant : ℤ → ℕ → ℕ → Option ℕ
unfolding clamp
requant acc scale zp = do
  x ← fr2f (record { num = acc; den = 1 })
  y ← fma x scale zp
  v ← f2fr y
  top ← f2fr f127
  some (round (clamp v top))

-- `v & 0xFF`
unfoldable pub to_byte : ℤ → ℕ
to_byte (pos n) = n % 256
to_byte (negsuc n) = 255 - n % 256

-- Four values to a word, the first lowest; the last word may be short.
unfoldable pub pack8 : List ℤ → List ℕ
unfolding to_byte
pack8 [] = []
pack8 (a ∷ []) = to_byte a ∷ []
pack8 (a ∷ b ∷ []) = (to_byte a + to_byte b * 2 ^ 8) ∷ []
pack8 (a ∷ b ∷ c ∷ []) = (to_byte a + to_byte b * 2 ^ 8 + to_byte c * 2 ^ 16) ∷ []
pack8 (a ∷ b ∷ c ∷ d ∷ vals) =
    (to_byte a + to_byte b * 2 ^ 8 + to_byte c * 2 ^ 16 + to_byte d * 2 ^ 24) ∷ pack8 vals
