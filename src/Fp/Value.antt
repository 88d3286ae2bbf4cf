-- ===== src/Fp/Value.antt =====
-- `f2fr` gives the exact value of a finite word, and `fr2f` takes it back to the word.
use native.Mathlib.Nat.{
  mul-le-mul_right, mul-lt-mul_of_pos_right, eq_of_mul-eq-mul_left, mul_comm, mul-le-mul,
}
use native.Mathlib.Decide.{ℕ_discrete}
use simtix.Base.{
  ℕ, ◌+◌, ◌-◌, ◌*◌, ◌^◌, ◌≤◌, ◌<◌, ◌≡◌, ◌≢◌, refl, ap, sym, ◌∙◌, arith, suc, inl, inr, Bool,
  Bool-cases, ltb, ◌==◌, true, false, some, if◌then◌else◌, ==_ne, ==→eq,
}
use simtix.Base.Pow.{pow_pos, pow_suc, pow_mono, pow_split}
use simtix.Fp.{
  Fraction, magnitude, with_sign, f2fr, fr2f, sign_field, exponent_field, mantissa_field,
}
use simtix.Fp.Units.{units}
use simtix.Fp.Nearest.{gap, is_negative, distance}
use simtix.Fp.Correct.{IsNearestWord, fr2f_zero, fr2f-IsNearestWord, fr2f_total}

-- The fraction that a finite word stands for: its numerator's sign, and the exact magnitude.
pub record IsValueOf (b : ℕ) (x : Fraction) : Type 0 where
  pub positive : 0 < x.den
  pub exact : magnitude x.num * 2 ^ 149 ≡ units b * x.den
  pub negative : 0 < units b → is_negative x.num ≡ ltb 0 (sign_field b)

with_sign_magnitude : (s : Bool) (n : ℕ) → magnitude (with_sign s n) ≡ n
with_sign_magnitude true n = ground arith
with_sign_magnitude false n = ground arith

with_sign_negative : (s : Bool) (n : ℕ) → 0 < n → is_negative (with_sign s n) ≡ s
with_sign_negative true n h = ground arith
with_sign_negative false n h = ground arith

normal_exact :
    (m e : ℕ)
    → 0 < e
    → e < 255
    → m * 2 ^ (e - 127) * 2 ^ 149 ≡ m * 2 ^ (e - 1) * (2 ^ 23 * 2 ^ (127 - e))
normal_exact m e lo hi =
    let sum : e - 127 + 149 ≡ e - 1 + 23 + (127 - e) = omega arith in
    let low = pow_split m (e - 1) 23 (e - 1 + 23) refl in
    pow_split m (e - 127) 149 (e - 127 + 149) refl
    ∙ ap (λ (t : ℕ). m * 2 ^ t) sum
    ∙ sym (pow_split m (e - 1 + 23) (127 - e) (e - 1 + 23 + (127 - e)) refl)
    ∙ ap (λ (t : ℕ). t * 2 ^ (127 - e)) (sym low)
    ∙ omega arith

units_least : (b : ℕ) → (exponent_field b == 0) ≡ true → units b ≡ mantissa_field b
units_least b h = rw h

pub units_normal :
    (b : ℕ)
    → (exponent_field b == 0) ≡ false
    → units b ≡ (2 ^ 23 + mantissa_field b) * 2 ^ (exponent_field b - 1)
units_normal b h = rw h

signed-IsValueOf :
    (b n d : ℕ)
    → 0 < d
    → n * 2 ^ 149 ≡ units b * d
    → (0 < units b → 0 < n)
    → IsValueOf b (record { num = with_sign (ltb 0 (sign_field b)) n; den = d })
signed-IsValueOf b n d h e p = record {
  positive = h;
  exact = rw (with_sign_magnitude (ltb 0 (sign_field b)) n) e;
  negative = λ u. with_sign_negative (ltb 0 (sign_field b)) n (p u);
}

-- `f2fr` gives a fraction for every finite word: its denominator is positive, its magnitude is that
-- of the word, and where it is not zero its sign too.
pub f2fr-IsValueOf :
    (b : ℕ) → exponent_field b < 255 → (x : Fraction) × (f2fr b ≡ some x) × IsValueOf b x
unfolding f2fr
f2fr-IsValueOf b finite = elim (Bool-cases (exponent_field b == 0)) [
  | inl least ↦ (
    record { num = with_sign (ltb 0 (sign_field b)) (mantissa_field b); den = 2 ^ 149 },
    rw (==_ne (exponent_field b) 255 (omega arith), least),
    signed-IsValueOf b (mantissa_field b) (2 ^ 149) (omega arith) (rw (units_least b least))
        (λ u. rw (units_least b least) at u),
  )
  | inr normal ↦
      let e = exponent_field b in
      let m = 2 ^ 23 + mantissa_field b in
      let exact = normal_exact m e (ground arith) finite in
      (
        record {
          num = with_sign (ltb 0 (sign_field b)) (m * 2 ^ (e - 127));
          den = 2 ^ 23 * 2 ^ (127 - e);
        },
        rw (==_ne (exponent_field b) 255 (omega arith), normal),
        signed-IsValueOf b (m * 2 ^ (e - 127)) (2 ^ 23 * 2 ^ (127 - e))
            (omega (arith, pow_pos (127 - e))) (rw (units_normal b normal) exact)
            (λ u. omega (
              arith,
              mul-le-mul_right {m = 1} {n = m} (2 ^ (e - 127)) (omega arith),
              pow_pos (e - 127),
            )),
      )
]

pub units_below : (b : ℕ) → units b < 2 ^ 23 * 2 ^ exponent_field b
units_below b = elim (Bool-cases (exponent_field b == 0)) [
  | inl least ↦
      let zero_exp : exponent_field b ≡ 0 = ==→eq _ _ least in
      omega (arith, units_least b least, ap (λ (t : ℕ). 2 ^ t) zero_exp)
  | inr normal ↦
      let e = exponent_field b in
      let shift : e ≡ suc (e - 1) = ground arith in
      omega (
        arith,
        units_normal b normal,
        mul-lt-mul_of_pos_right {m = 2 ^ 23 + mantissa_field b} {n = 2 ^ 24} (omega arith)
            (pow_pos (e - 1)),
        pow_suc (e - 1),
        ap (λ (t : ℕ). 2 ^ t) shift,
      )
]

pub units_above : (b : ℕ) → 0 < exponent_field b → 2 ^ 23 * 2 ^ (exponent_field b - 1) ≤ units b
units_above b h =
    rw (units_normal b (==_ne _ _ (omega arith)))
      (mul-le-mul_right (2 ^ (exponent_field b - 1)) (omega arith))

units_mono : (a b : ℕ) → exponent_field a < exponent_field b → units a < units b
units_mono a b h = omega (
  arith,
  units_below a,
  units_above b (omega arith),
  pow_mono (exponent_field a) (exponent_field b - 1) (omega arith),
)

same_exponent :
    (a b : ℕ)
    → exponent_field a ≡ exponent_field b
    → units a ≡ units b
    → mantissa_field a ≡ mantissa_field b
same_exponent a b e u = elim (Bool-cases (exponent_field b == 0)) [
  | inl least ↦ omega (arith, units_least a (rw e least), units_least b least)
  | inr normal ↦ omega (
    arith,
    eq_of_mul-eq-mul_left (2 ^ (exponent_field b - 1)) (pow_pos (exponent_field b - 1)) _ _ (
        mul_comm _ _
        ∙ sym (units_normal b normal)
        ∙ sym u
        ∙ units_normal a (rw e normal)
        ∙ ap (λ (t : ℕ). (2 ^ 23 + mantissa_field a) * 2 ^ (t - 1)) e
        ∙ mul_comm _ _),
  )
]

exponent_not_lt : (a b : ℕ) → units a ≡ units b → ¬ (exponent_field a < exponent_field b)
exponent_not_lt a b u h = omega (arith, units_mono a b h)

-- A word is determined by its sign and its magnitude.
units_injective :
    (a b : ℕ) → sign_field a ≡ sign_field b → units a ≡ units b → a < 2 ^ 32 → b < 2 ^ 32 → a ≡ b
units_injective a b s u ha hb =
    let e : exponent_field a ≡ exponent_field b =
      omega (arith, exponent_not_lt a b u, exponent_not_lt b a (sym u)) in
    omega (arith, e, same_exponent a b e u)

units_zero : (b : ℕ) → units b ≡ 0 → b < 2 ^ 32 → b ≢ 2 ^ 31 → b ≡ 0
units_zero b u h ne =
    let e : exponent_field b ≡ 0 = omega (arith, exponent_not_lt 0 b (sym u)) in
    omega (arith, e, units_least b (rw e))

pub units-le-max : (b : ℕ) → exponent_field b < 255 → units b ≤ units 0x7f7f_ffff
units-le-max b h = elim (Bool-cases (exponent_field b == 0)) [
  | inl least ↦ omega (arith, units_least b least)
  | inr normal ↦ rw (units_normal b normal) (
      mul-le-mul {n₂ = 2 ^ 24 - 1} {m₂ = 2 ^ 253} (omega arith)
        (pow_mono (exponent_field b - 1) 253 (omega arith)))
]

gap_self : (s : Bool) (a : ℕ) → gap s s a a ≡ 0
gap_self true a = omega arith
gap_self false a = omega arith

gap_zero : (s t : Bool) (a v : ℕ) → 0 < a → gap s t a v ≡ 0 → v ≡ a
gap_zero true true a v h e = omega arith
gap_zero true false a v h e = omega arith
gap_zero false true a v h e = omega arith
gap_zero false false a v h e = omega arith

module _ (b : ℕ) (x : Fraction) (hb : b < 2 ^ 32) (v : IsValueOf b x) (more : 0 < units b) where
  distance_exact : distance x b ≡ 0
  unfolding distance
  distance_exact = rw (v.negative more, v.exact) (gap_self (ltb 0 (sign_field b)) (units b * x.den))

  same_units : (r : ℕ) → distance x r ≡ 0 → units r ≡ units b
  unfolding distance
  same_units r e = eq_of_mul-eq-mul_left x.den v.positive _ _ (
      mul_comm _ _
      ∙ gap_zero _ _ _ _ (omega (arith, v.exact, mul-lt-mul_of_pos_right more v.positive)) e
      ∙ v.exact
      ∙ mul_comm _ _)

  same_sign :
      (r : ℕ) → sign_field r ≡ (if is_negative x.num then 1 else 0) → sign_field r ≡ sign_field b
  same_sign r = rw (v.negative more) λ e. e ∙ ground arith

  nearest-is-word : (r : ℕ) → IsNearestWord x r → r ≡ b
  nearest-is-word r p =
      units_injective r b (same_sign r p.sign)
        (same_units r (omega (arith, p.nearest b, distance_exact))) p.word hb

-- A finite word that is not -0 survives the conversion to a fraction and back.
pub fr2f-f2fr :
    (b : ℕ)
    → b < 2 ^ 32
    → exponent_field b < 255
    → b ≢ 2 ^ 31
    → (x : Fraction) × (f2fr b ≡ some x) × (fr2f x ≡ some b)
fr2f-f2fr b hb finite not_neg_zero =
    let (x, made, v) = f2fr-IsValueOf b finite in
    elim (ℕ_discrete (units b) 0) [
      | yes least ↦ (
        x,
        made,
        fr2f_zero x (omega (arith, v.exact, ap (λ (t : ℕ). t * x.den) least))
            ∙ ap (λ (t : ℕ). some t) (sym (units_zero b least hb not_neg_zero)),
      )
      | no more ↦
          let (r, e) =
            fr2f_total x v.positive
              (omega (arith, v.exact, mul-le-mul_right x.den (units-le-max b finite))) in
          (
            x,
            made,
            e
                ∙ ap (λ (t : ℕ). some t)
                    (nearest-is-word b x hb v (omega arith) r
                      (fr2f-IsNearestWord x r v.positive e)),
          )
    ]
