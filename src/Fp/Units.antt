-- ===== src/Fp/Units.antt =====
-- The value of an FP32 word in units of 2^-149, and the word that `assemble` builds.
use native.Mathlib.Nat.{add-sub_cancel, mul-le-mul_left, mul-le-mul}
use native.Mathlib.Decide.{dec_lt, ℕ_discrete}
use mathlib.Core.Path.{subst}
use simtix.Base.{
  ℕ, ◌+◌, ◌-◌, ◌*◌, ◌%◌, ◌^◌, ◌≤◌, ◌<◌, ◌≡◌, refl, ◌∙◌, ◌⊎◌, arith, suc, inl, inr, Bool, Bool-cases,
  ltb, ◌==◌, ltb→lt, true, false, none, some, if◌then◌else◌, ==_ne,
}
use simtix.Base.Int.{pos, sub_ℕ, ◌+ℤ◌, int_laws}
use simtix.Base.Pow.{pow_suc, pow_mono}
use simtix.Fp.{assemble, sign_field, exponent_field, mantissa_field}

-- The magnitude of a finite word in units of 2^-149.
abbrev pub units : ℕ → ℕ
units b =
    if exponent_field b == 0
    then mantissa_field b
    else (2 ^ 23 + mantissa_field b) * 2 ^ (exponent_field b - 1)

abbrev sign_bit : Bool → ℕ
sign_bit s = if s then 2 ^ 31 else 0

-- The word of a sign and a magnitude of `m * 2 ^ k` units.
pub record IsWordOf (s : Bool) (m k b : ℕ) : Type 0 where
  pub word : b < 2 ^ 32
  pub sign : sign_field b ≡ (if s then 1 else 0)
  pub finite : exponent_field b < 255
  pub magnitude : units b ≡ m * 2 ^ k
  pub parity : b % 2 ≡ m % 2

fields :
    (s : Bool) (e f : ℕ)
    → e < 255
    → f < 2 ^ 23
    → let b = sign_bit s + e * 2 ^ 23 + f in
      (b < 2 ^ 32)
      × (sign_field b ≡ (if s then 1 else 0))
      × (exponent_field b ≡ e)
      × (mantissa_field b ≡ f)
      × (b % 2 ≡ f % 2)
fields true e f he hf = omega arith
fields false e f he hf = omega arith

biased : (k : ℕ) → sub_ℕ k 126 +ℤ pos 127 ≡ pos (k + 1)
biased k = grind int_laws

biased_carry : (k : ℕ) → sub_ℕ k 126 +ℤ pos 1 +ℤ pos 127 ≡ pos (k + 2)
biased_carry k = grind int_laws

assemble_carry :
    (s : Bool) (k : ℕ)
    → assemble s (2 ^ 24) (sub_ℕ k 126)
      ≡ (if ltb (k + 2) 255 then some (sign_bit s + (k + 2) * 2 ^ 23 + 0) else none)
unfolding assemble
assemble_carry s k = rw (biased_carry k) (ground arith)

assemble_normal :
    (s : Bool) (m k : ℕ)
    → 2 ^ 23 ≤ m
    → m < 2 ^ 24
    → assemble s m (sub_ℕ k 126)
      ≡ (if ltb (k + 1) 255 then some (sign_bit s + (k + 1) * 2 ^ 23 + (m - 2 ^ 23)) else none)
unfolding assemble
assemble_normal s m k lo hi = rw (==_ne m (2 ^ 24) (omega arith)) (rw (biased k) (ground arith))

assemble_subnormal :
    (s : Bool) (m k : ℕ) → m < 2 ^ 23 → assemble s m (sub_ℕ k 126) ≡ some (sign_bit s + m)
unfolding assemble
assemble_subnormal s m k hi = rw (==_ne m (2 ^ 24) (omega arith)) (ground arith)

units_fields :
    (b e f : ℕ)
    → exponent_field b ≡ e
    → mantissa_field b ≡ f
    → units b ≡ (if e == 0 then f else (2 ^ 23 + f) * 2 ^ (e - 1))
units_fields b e f p q = rw (p, q)

module _ (s : Bool) where
  carry-IsWordOf : (k : ℕ) → k + 2 < 255 → IsWordOf s (2 ^ 24) k (sign_bit s + (k + 2) * 2 ^ 23 + 0)
  carry-IsWordOf k h =
      let (word, sign, e, f, parity) = fields s (k + 2) 0 h (omega arith) in
      record {
        word = word;
        sign = sign;
        finite = omega (arith, e);
        magnitude =
            units_fields _ (k + 2) 0 e f
            ∙ rw (==_ne (k + 2) 0 (omega arith), shift) (omega (arith, pow_suc k));
        parity = parity;
      }
    where
      shift : k + 2 - 1 ≡ suc k
      shift = omega arith

  normal-IsWordOf :
      (m k : ℕ)
      → 2 ^ 23 ≤ m
      → m < 2 ^ 24
      → k + 1 < 255
      → IsWordOf s m k (sign_bit s + (k + 1) * 2 ^ 23 + (m - 2 ^ 23))
  normal-IsWordOf m k lo hi h =
      let (word, sign, e, f, parity) = fields s (k + 1) (m - 2 ^ 23) h (omega arith) in
      record {
        word = word;
        sign = sign;
        finite = omega (arith, e);
        magnitude =
            units_fields _ (k + 1) (m - 2 ^ 23) e f
            ∙ rw (==_ne (k + 1) 0 (omega arith), add-sub_cancel k 1, whole) refl;
        parity = omega (arith, parity);
      }
    where
      whole : 2 ^ 23 + (m - 2 ^ 23) ≡ m
      whole = omega arith

  subnormal-IsWordOf : (m : ℕ) → m < 2 ^ 23 → IsWordOf s m 0 (sign_bit s + m)
  subnormal-IsWordOf m h =
      let (word, sign, e, f, parity) = fields s 0 m (omega arith) h in
      subst (λ b. IsWordOf s m 0 b) same
        (record {
          word = word;
          sign = sign;
          finite = omega (arith, e);
          magnitude = units_fields _ 0 m e f ∙ omega arith;
          parity = parity;
        })
    where
      same : sign_bit s + 0 * 2 ^ 23 + m ≡ sign_bit s + m
      same = omega arith

  -- A rounded mantissa makes a word of its magnitude, or is beyond the largest exponent.
  pub assemble-IsWordOf :
      (m k : ℕ)
      → m ≤ 2 ^ 24
      → (k ≡ 0) ⊎ (2 ^ 23 ≤ m)
      → ((b : ℕ) × (assemble s m (sub_ℕ k 126) ≡ some b) × IsWordOf s m k b)
        ⊎ ((assemble s m (sub_ℕ k 126) ≡ none) × (2 ^ 24 * 2 ^ 253 ≤ m * 2 ^ k))
  assemble-IsWordOf m k le small = elim (ℕ_discrete m (2 ^ 24)) [
    | yes full ↦ rw full (carried (Bool-cases (ltb (k + 2) 255)))
    | no partial ↦ elim (dec_lt m (2 ^ 23)) [
      | yes sub ↦
          rw (least sub small)
            (inl (sign_bit s + m, assemble_subnormal s m 0 sub, subnormal-IsWordOf m sub))
      | no normal ↦ normals (Bool-cases (ltb (k + 1) 255)) (omega arith) (omega arith)
    ]
  ]
    where
      least : m < 2 ^ 23 → (k ≡ 0) ⊎ (2 ^ 23 ≤ m) → k ≡ 0
      least sub c = omega arith

      carried :
          (ltb (k + 2) 255 ≡ true) ⊎ (ltb (k + 2) 255 ≡ false)
          → ((b : ℕ) × (assemble s (2 ^ 24) (sub_ℕ k 126) ≡ some b) × IsWordOf s (2 ^ 24) k b)
            ⊎ ((assemble s (2 ^ 24) (sub_ℕ k 126) ≡ none) × (2 ^ 24 * 2 ^ 253 ≤ 2 ^ 24 * 2 ^ k))
      carried (inl fits) = inl (_, assemble_carry s k ∙ rw fits, carry-IsWordOf k (ltb→lt _ _ fits))
      carried (inr beyond) =
          inr (
            assemble_carry s k ∙ rw beyond,
            mul-le-mul_left (2 ^ 24) (pow_mono 253 k (ground arith)),
          )

      normals :
          (ltb (k + 1) 255 ≡ true) ⊎ (ltb (k + 1) 255 ≡ false)
          → 2 ^ 23 ≤ m
          → m < 2 ^ 24
          → ((b : ℕ) × (assemble s m (sub_ℕ k 126) ≡ some b) × IsWordOf s m k b)
            ⊎ ((assemble s m (sub_ℕ k 126) ≡ none) × (2 ^ 24 * 2 ^ 253 ≤ m * 2 ^ k))
      normals (inl fits) lo hi =
          inl
            (_, assemble_normal s m k lo hi ∙ rw fits, normal-IsWordOf m k lo hi (ltb→lt _ _ fits))
      normals (inr beyond) lo hi =
          inr
            (assemble_normal s m k lo hi ∙ rw beyond, mul-le-mul lo (pow_mono 254 k (ground arith)))
