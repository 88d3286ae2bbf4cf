-- ===== src/Draw/Widths.antt =====
-- The widths that compact (docs/figs/datapath_tikz/dp_engine.py) leaves: of the occupied intervals, of
-- the corridors between them, and of the whole.
use simtix.Base.{
  List, [], ◌∷◌, ◌++◌, inl, inr, arith, Bool-cases, ◌≡◌, refl, ap, ◌∙◌, if◌then◌else◌,
}
use simtix.Base.Int.{ℤ, pos, ◌+ℤ◌, ◌-ℤ◌, ◌≤ℤ◌, int_laws, pos_part, neg_part}
use simtix.Draw.Corridors.{Interval, is_cut, cuts, removed, total_removed, squeeze}
use simtix.Draw.Merged.{Covered, IsApart}
use simtix.Draw.Squeezed.{
  removed-cuts_first, removed-cuts_later, removed-cuts_tail, amount, cut-or-whole,
}

Covered-append : (v : ℤ) (pre iv : List Interval) → Covered v iv → Covered v (pre ++ iv)
Covered-append v [] iv c = c
Covered-append v (p ∷ pre) iv c = inr (Covered-append v pre iv c)

-- Intervals before the ones at hand remove the same from all of these.
removed-cuts_after :
    (gap : ℤ) (keep : List Interval) (pre iv : List Interval) (v w : ℤ)
    → IsApart (pre ++ iv)
    → Covered v iv
    → Covered w iv
    → removed (cuts gap keep (pre ++ iv)) v +ℤ removed (cuts gap keep iv) w
      ≡ removed (cuts gap keep (pre ++ iv)) w +ℤ removed (cuts gap keep iv) v
removed-cuts_after gap keep [] iv v w a hv hw = omega int_laws
removed-cuts_after gap keep (p ∷ pre) iv v w a hv hw =
    let tail =
      removed-cuts_tail gap keep p (pre ++ iv) v w a (Covered-append v pre iv hv)
        (Covered-append w pre iv hw) in
    let rest = removed-cuts_after gap keep pre iv v w a.2 hv hw in
    omega (int_laws, ap pos_part tail, ap neg_part tail, ap pos_part rest, ap neg_part rest)

IsApart-after : (pre iv : List Interval) → IsApart (pre ++ iv) → IsApart iv
IsApart-after [] iv a = a
IsApart-after (p ∷ pre) iv a = IsApart-after pre iv a.2

-- An occupied interval keeps its width.
squeeze-inside :
    (gap : ℤ) (keep : List Interval) (pre : List Interval) (p : Interval) (post : List Interval)
    (v w : ℤ)
    → pos 0 ≤ℤ gap
    → IsApart (pre ++ p ∷ post)
    → (p.0 ≤ℤ v) × (v ≤ℤ p.1)
    → (p.0 ≤ℤ w) × (w ≤ℤ p.1)
    → squeeze (cuts gap keep (pre ++ p ∷ post)) w -ℤ squeeze (cuts gap keep (pre ++ p ∷ post)) v
      ≡ w -ℤ v
unfolding squeeze
squeeze-inside gap keep pre p post v w hg a hv hw =
    let a' = IsApart-after pre (p ∷ post) a in
    let e = removed-cuts_after gap keep pre (p ∷ post) v w a (inl hv) (inl hw) in
    let ev = removed-cuts_first gap keep p post v hg a' hv.1 in
    let ew = removed-cuts_first gap keep p post w hg a' hw.1 in
    omega (
      int_laws,
      ap pos_part e,
      ap neg_part e,
      ap pos_part ev,
      ap neg_part ev,
      ap pos_part ew,
      ap neg_part ew,
    )

-- The corridor between two neighbours becomes `gap` if it is cut, and else keeps its width.
pub squeeze-corridor :
    (gap : ℤ) (keep : List Interval) (pre : List Interval) (p q : Interval) (post : List Interval)
    → pos 0 ≤ℤ gap
    → IsApart (pre ++ p ∷ q ∷ post)
    → squeeze (cuts gap keep (pre ++ p ∷ q ∷ post)) q.0
        -ℤ squeeze (cuts gap keep (pre ++ p ∷ q ∷ post)) p.1
      ≡ (if is_cut gap keep p.1 q.0 then gap else q.0 -ℤ p.1)
unfolding squeeze
squeeze-corridor gap keep pre p q post hg a =
    let a' = IsApart-after pre (p ∷ q ∷ post) a in
    let e =
      removed-cuts_after gap keep pre (p ∷ q ∷ post) p.1 q.0 a (inl (a'.0, omega arith))
        (inr (inl (omega arith, a'.2.0))) in
    let first = removed-cuts_first gap keep p (q ∷ post) p.1 hg a' (omega arith) in
    let later = removed-cuts_later gap keep p q post q.0 (omega arith) in
    let none_yet = removed-cuts_first gap keep q post q.0 hg a'.2 a'.2.0 in
    let facts =
      removed_gap (removed (cuts gap keep (pre ++ p ∷ q ∷ post)) q.0)
        (removed (cuts gap keep (pre ++ p ∷ q ∷ post)) p.1) (amount gap keep p q)
        (removed (cuts gap keep (p ∷ q ∷ post)) q.0) (removed (cuts gap keep (p ∷ q ∷ post)) p.1)
        (removed (cuts gap keep (q ∷ post)) q.0) e first later none_yet in
    elim (Bool-cases (is_cut gap keep p.1 q.0)) [
      | inl cut ↦ rw cut (
          let f : removed (cuts gap keep (pre ++ p ∷ q ∷ post)) q.0
              ≡ removed (cuts gap keep (pre ++ p ∷ q ∷ post)) p.1 +ℤ (q.0 -ℤ p.1 -ℤ gap) =
            facts ∙ rw cut refl in
          omega (int_laws, ap pos_part f, ap neg_part f))
      | inr whole ↦ rw whole (
          let f : removed (cuts gap keep (pre ++ p ∷ q ∷ post)) q.0
              ≡ removed (cuts gap keep (pre ++ p ∷ q ∷ post)) p.1 +ℤ pos 0 =
            facts ∙ rw whole refl in
          omega (int_laws, ap pos_part f, ap neg_part f))
    ]
  where
    removed_gap :
        (rq rp am lq lp nq : ℤ)
        → rp +ℤ lq ≡ rq +ℤ lp
        → lp ≡ pos 0
        → lq ≡ am +ℤ nq
        → nq ≡ pos 0
        → rq ≡ rp +ℤ am
    removed_gap rq rp am lq lp nq e f g h = omega (
      int_laws,
      ap pos_part e,
      ap neg_part e,
      ap pos_part f,
      ap neg_part f,
      ap pos_part g,
      ap neg_part g,
      ap pos_part h,
      ap neg_part h,
    )

-- Every interval starts at or before the value.
abbrev StartsBy : ℤ → List Interval → Type 0
StartsBy v [] = Unit
StartsBy v (p ∷ iv) = (p.0 ≤ℤ v) × StartsBy v iv

-- Past the last corridor, the sum of all amounts is removed.
removed-total_removed :
    (gap : ℤ) (keep : List Interval) (iv : List Interval) (v : ℤ)
    → StartsBy v iv
    → removed (cuts gap keep iv) v ≡ total_removed (cuts gap keep iv)
unfolding removed total_removed cuts
removed-total_removed gap keep [] v s = refl
removed-total_removed gap keep (p ∷ []) v s = refl
removed-total_removed gap keep (p ∷ q ∷ iv) v s =
    let rest = removed-total_removed gap keep (q ∷ iv) v s.1 in
    removed-cuts_later gap keep p q iv v s.1.0 ∙ elim (cut-or-whole gap keep p q iv) [
      | inl cut ↦ rw (cut.2, cut.0, rest) refl
      | inr whole ↦ rw (whole.1, whole.0, rest) (omega int_laws)
    ]
