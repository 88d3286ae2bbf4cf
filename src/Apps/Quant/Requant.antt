-- ===== src/Apps/Quant/Requant.antt =====
-- What `requant` computes.
use simtix.Base.{
  ℕ, ◌+◌, ◌*◌, ◌^◌, ◌≤◌, ◌<◌, ◌≡◌, refl, sym, ap, ◌∙◌, ◌⊎◌, arith, inl, inr, some, true, ltb,
  lt→ltb, le→ltb,
}
use mathlib.Core.Path.{subst}
use native.Mathlib.Omega.{by_contra}
use native.Mathlib.Decide.{dec_lt}
use native.Mathlib.Nat.{mul-le-mul_right}
use simtix.Base.Int.{ℤ, pos, negsuc, ◌*ℤ◌, pos_part, neg_part}
use simtix.Fp.{Fraction, magnitude, f2fr, add_fr, mul_fr, round_even}
use simtix.Fp.Units.{units}
use simtix.Fp.Correct.{IsNearestWord}
use simtix.Fp.Rounding.{IsNearestEven, round_even-IsNearestEven}
use simtix.Fp.Bounds.{f2fr-IsBounded, fr2f-Rounds, fma-Rounds, word-IsBarrier, finite_of_units}
use simtix.Fp.Accumulate.{one}
use simtix.Apps.Quant.{f127, less, zero_fraction, clamp, round, requant}

-- The fraction 127, as `f2fr` gives it.
abbrev top : Fraction
top = record { num = pos (127 * 2 ^ 23); den = 2 ^ 23 }

top_made : f2fr f127 ≡ some top
unfolding f2fr
top_made = refl

less_pos :
    (m n d e : ℕ)
    → less (record { num = pos m; den = d }) (record { num = pos n; den = e }) ≡ ltb (m * e) (n * d)
unfolding ◌*ℤ◌
less_pos m n d e = ground arith

less_negative : (n d : ℕ) → 0 < d → less (record { num = negsuc n; den = d }) zero_fraction ≡ true
unfolding ◌*ℤ◌
less_negative n d h = ground arith

-- q is the value clamped to 0 to 127 and rounded to nearest, ties to even.
abbrev IsClampedRound : Fraction → ℕ → Type 0
IsClampedRound v q =
    ((0 < neg_part v.num) × (q ≡ 0))
    ⊎ ((127 * v.den < pos_part v.num) × (q ≡ 127))
    ⊎ ((neg_part v.num ≡ 0)
        × (pos_part v.num ≤ 127 * v.den)
        × IsNearestEven (pos_part v.num) v.den q)

round-clamp_negative :
    (n d : ℕ) → 0 < d → round (clamp (record { num = negsuc n; den = d }) top) ≡ 0
unfolding clamp round_even
round-clamp_negative n d h = rw (less_negative n d h, less_pos (127 * 2 ^ 23) 0 (2 ^ 23) 1) refl

round-clamp_above :
    (n d : ℕ) → 127 * d < n → round (clamp (record { num = pos n; den = d }) top) ≡ 127
unfolding clamp round_even
round-clamp_above n d h =
    rw
      (
        less_pos n 0 d 1,
        le→ltb (n * 1) (0 * d) (omega arith),
        less_pos (127 * 2 ^ 23) n (2 ^ 23) d,
        lt→ltb (127 * 2 ^ 23 * d) (n * 2 ^ 23) (omega arith),
      )
      refl

round-clamp_within :
    (n d : ℕ)
    → n ≤ 127 * d
    → round (clamp (record { num = pos n; den = d }) top) ≡ round_even (n + 0) d
unfolding clamp
round-clamp_within n d h =
    rw
      (
        less_pos n 0 d 1,
        le→ltb (n * 1) (0 * d) (omega arith),
        less_pos (127 * 2 ^ 23) n (2 ^ 23) d,
        le→ltb (127 * 2 ^ 23 * d) (n * 2 ^ 23) (omega arith),
      )
      refl

round-clamp-IsClampedRound :
    (num : ℤ) (d : ℕ)
    → 0 < d
    → IsClampedRound
        (record { num = num; den = d })
        (round (clamp (record { num = num; den = d }) top))
round-clamp-IsClampedRound (negsuc n) d h = inl (omega arith, round-clamp_negative n d h)
round-clamp-IsClampedRound (pos n) d h = elim (dec_lt (127 * d) n) [
  | yes above ↦ inr (inl (above, round-clamp_above n d above))
  | no within ↦
      let le : n ≤ 127 * d = omega arith in
      inr (
        inr (
          refl,
          le,
          subst (λ q. IsNearestEven n d q)
              (sym (round-clamp_within n d le ∙ ap (λ t. round_even t d) (omega arith)))
              (round_even-IsNearestEven n d h),
        ))
]

clamped-le : (v : Fraction) (q : ℕ) → 0 < v.den → IsClampedRound v q → q ≤ 127
clamped-le v q h (inl (neg, e)) = omega arith
clamped-le v q h (inr (inl (above, e))) = omega arith
clamped-le v q h (inr (inr (not_neg, le, p))) =
    by_contra _ _ λ more. omega (arith, p.high, mul-le-mul_right {m = 128} {n = q} v.den more)

-- The steps behind a result q of `requant`.
pub record IsRequant (acc : ℤ) (scale zp q : ℕ) : Type 0 where
  pub converted : ℕ
  pub scaled : ℕ
  pub from_converted : Fraction
  pub from_scale : Fraction
  pub from_zp : Fraction
  pub value : Fraction
  pub int_rounded : IsNearestWord (record { num = acc; den = 1 }) converted
  pub reads_converted : f2fr converted ≡ some from_converted
  pub reads_scale : f2fr scale ≡ some from_scale
  pub reads_zp : f2fr zp ≡ some from_zp
  pub fused : IsNearestWord (add_fr (mul_fr from_converted from_scale) from_zp) scaled
  pub reads_scaled : f2fr scaled ≡ some value
  pub rounded : IsClampedRound value q
  pub at_most : q ≤ 127

-- For a 32-bit sum, a scale of at most 1.0 in magnitude and a zero point of at most 2^31, `requant`
-- gives a number from 0 to 127: the sum converted to FP32, one fused multiply-add, the clamp to 0 to
-- 127, and the rounding to the nearest integer, ties to even.
pub requant-IsRequant :
    (acc : ℤ) (scale zp : ℕ)
    → magnitude acc ≤ 2 ^ 31
    → units scale ≤ units one
    → units zp ≤ units 0x4f00_0000
    → (q : ℕ) × (requant acc scale zp ≡ some q) × IsRequant acc scale zp q
unfolding requant
requant-IsRequant acc scale zp ha hs hz =
    let x =
      fr2f-Rounds (record { num = acc; den = 1 }) 0x4f00_0000 0 (omega arith)
        (word-IsBarrier 0x4f00_0000 (omega arith) (omega arith)) (omega arith) in
    let (xf, px) =
      f2fr-IsBounded (units 0x4f00_0000) x.word x.within
        (finite_of_units _ (omega (arith, x.within))) in
    let (sf, ps) = f2fr-IsBounded (units one) scale hs (finite_of_units _ (omega arith)) in
    let (zf, pz) = f2fr-IsBounded (units 0x4f00_0000) zp hz (finite_of_units _ (omega arith)) in
    let y =
      fma-Rounds (units 0x4f00_0000) (units one) 0x4f80_0000 0
        (word-IsBarrier 0x4f80_0000 (omega arith) (omega arith)) x.word scale xf sf px ps
        (units 0x4f00_0000) (units 0x4f00_0000) zp zf pz (omega arith) (omega arith) in
    let (v, pv) =
      f2fr-IsBounded (units 0x4f80_0000) y.word y.within
        (finite_of_units _ (omega (arith, y.within))) in
    let r = round-clamp-IsClampedRound v.num v.den pv.positive in
    (
      round (clamp v top),
      rw (x.made, y.made, pv.made, top_made) refl,
      record {
        converted = x.word;
        scaled = y.word;
        from_converted = xf;
        from_scale = sf;
        from_zp = zf;
        value = v;
        int_rounded = x.nearest;
        reads_converted = px.made;
        reads_scale = ps.made;
        reads_zp = pz.made;
        fused = y.nearest;
        reads_scaled = pv.made;
        rounded = r;
        at_most = clamped-le v _ pv.positive r;
      },
    )
