-- ===== src/Draw/Kept.antt =====
-- Which corridors compact squeezes, apart from its test.
use simtix.Base.{List, [], ◌∷◌, ◌⊎◌, inl, inr, true, false, Bool-cases, ◌≡◌, refl, arith, ◌&&◌}
use simtix.Base.Int.{ℤ, ◌-ℤ◌, ◌≤ℤ◌, ◌<ℤ◌, leb_ℤ, ltb_ℤ}
use simtix.Draw.Corridors.{Interval, is_kept, is_cut}

-- A range to keep holds the corridor from `b` to `c`.
abbrev pub IsKept : List Interval → ℤ → ℤ → Type 0
IsKept [] b c = ⊥
IsKept (r ∷ keep) b c = ((r.0 ≤ℤ b) × (c ≤ℤ r.1)) ⊎ IsKept keep b c

IsKept-cases :
    (keep : List Interval) (b c : ℤ)
    → ((is_kept b c keep ≡ true) × IsKept keep b c)
      ⊎ ((is_kept b c keep ≡ false) × ¬ IsKept keep b c)
unfolding is_kept
IsKept-cases [] b c = inr (refl, λ h. h)
IsKept-cases (r ∷ keep) b c = elim (IsKept-cases keep b c) [
  | inl (e, h) ↦ inl (ground (arith, e), inr h)
  | inr (e, h) ↦ elim (Bool-cases (leb_ℤ r.0 b && leb_ℤ c r.1)) [
    | inl here ↦ inl (rw here refl, inl (ground (arith, here)))
    | inr off ↦ inr (
      rw (off, e) refl,
      λ k. elim k [ inl in_r ↦ ground (arith, off, in_r) | inr later ↦ h later ],
    )
  ]
]

-- The corridor is wider than the gap and in no range to keep, or one of the two does not hold.
pub cut-cases :
    (gap : ℤ) (keep : List Interval) (b c : ℤ)
    → ((is_cut gap keep b c ≡ true) × (gap <ℤ c -ℤ b) × ¬ IsKept keep b c)
      ⊎ ((is_cut gap keep b c ≡ false) × ((c -ℤ b ≤ℤ gap) ⊎ IsKept keep b c))
unfolding is_cut
cut-cases gap keep b c = elim (Bool-cases (ltb_ℤ gap (c -ℤ b))) [
  | inr narrow ↦ inr (rw narrow refl, inl (ground (arith, narrow)))
  | inl wide ↦ elim (IsKept-cases keep b c) [
    | inl (e, h) ↦ inr (rw (wide, e) refl, inr h)
    | inr (e, h) ↦ inl (rw (wide, e) refl, ground (arith, wide), h)
  ]
]
