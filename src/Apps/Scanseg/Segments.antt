-- ===== src/Apps/Scanseg/Segments.antt =====
-- The loop that halves the rows of a segment: it ends, with segments that divide the words.
use native.Mathlib.Nat.{div-add-mod}
use native.Mathlib.Omega.{by_contra}
use simtix.Base.{
  ℕ, zero, suc, ◌*◌, ◌/◌, ◌%◌, ◌≤◌, ◌<◌, ◌≡◌, refl, ap, arith, some, false, ◌==◌, leb,
  if◌then◌else◌, Bool-cases, inl, inr,
}
use simtix.Apps.Scanseg.{halve, segment_rows}

-- The rows of a segment: at most `rows`, at least one, and the segments divide the words.
pub record IsSegment (lanes rows m r : ℕ) : Type 0 where
  pub positive : 0 < r
  pub at_most : r ≤ rows
  pub whole : m % (r * lanes) ≡ 0

-- One row always fits.
half_positive : (lanes m r : ℕ) → m % lanes ≡ 0 → (m % (suc r * lanes) == 0) ≡ false → 0 < suc r / 2
half_positive lanes m zero whole not =
    let e : 1 * lanes ≡ lanes = omega arith in
    absurd (ground (arith, whole, ap (λ (t : ℕ). m % t) e, not))
half_positive lanes m (suc r) whole not = omega arith

halve-IsSegment :
    (fuel lanes m r : ℕ)
    → m % lanes ≡ 0
    → 0 < r
    → r < fuel
    → (q : ℕ) × (halve fuel lanes m r ≡ some q) × IsSegment lanes r m q
unfolding halve
halve-IsSegment zero lanes m r whole more lt = elim lt [ ]
halve-IsSegment (suc fuel) lanes m zero whole more lt = elim more [ ]
halve-IsSegment (suc fuel) lanes m (suc r) whole more lt =
    elim (Bool-cases (m % (suc r * lanes) == 0)) [
      | inl fits ↦ (
        suc r,
        rw (fits, halve) refl,
        record { positive = omega arith; at_most = omega arith; whole = ground arith },
      )
      | inr not ↦
          let (q, e, p) =
            halve-IsSegment fuel lanes m (suc r / 2) whole (half_positive lanes m r whole not)
              (omega arith) in
          (
            q,
            rw (not, halve) e,
            record { positive = p.positive; at_most = omega (arith, p.at_most); whole = p.whole },
          )
    ]

-- For every number of words that is a positive multiple of the lanes, and at least one row, the
-- loop that halves the rows ends: with at least one row and at most `rows`, and with segments that
-- divide the words.
pub segment_rows-IsSegment :
    (lanes rows m : ℕ)
    → 0 < lanes
    → 0 < rows
    → lanes ≤ m
    → m % lanes ≡ 0
    → (r : ℕ) × (segment_rows lanes rows m ≡ some r) × IsSegment lanes rows m r
unfolding segment_rows
segment_rows-IsSegment lanes rows m hl hr hm whole =
    let (q, e, p) = halve-IsSegment (suc least) lanes m least whole bounds.0 (omega arith) in
    (
      q,
      e,
      record { positive = p.positive; at_most = omega (arith, p.at_most, bounds); whole = p.whole },
    )
  where
    least : ℕ
    least = if leb rows (m / lanes) then rows else m / lanes

    one_row : 0 < m / lanes
    one_row = by_contra _ _ λ less.
        let e : m / lanes ≡ 0 = omega arith in
        omega (arith, div-add-mod m lanes, ap (λ (t : ℕ). lanes * t) e)

    bounds : (0 < least) × (least ≤ rows)
    bounds = ground (arith, one_row)
