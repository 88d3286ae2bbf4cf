-- ===== src/Draw/Squeezed.antt =====
-- What the map of compact (docs/figs/datapath_tikz/dp_engine.py) does to the intervals and to the
-- corridors between them.
use simtix.Base.{
  List, [], ◌∷◌, ◌⊎◌, inl, inr, arith, true, false, Bool-cases, ◌≡◌, refl, ap, ◌∙◌, if◌then◌else◌,
}
use simtix.Base.Int.{ℤ, pos, ◌+ℤ◌, ◌-ℤ◌, ◌≤ℤ◌, ◌<ℤ◌, leb_ℤ, ltb_ℤ, int_laws, pos_part, neg_part}
use simtix.Draw.Corridors.{Interval, merge_slack, cut_slack, is_cut, cuts, removed, squeeze}
use simtix.Draw.Merged.{Covered, IsApart}

cut_long : (gap : ℤ) (keep : List Interval) (b c : ℤ) → is_cut gap keep b c ≡ true → b +ℤ gap <ℤ c
unfolding is_cut
cut_long gap keep b c e = elim (Bool-cases (ltb_ℤ gap (c -ℤ b))) [
  | inl lt ↦ let f : gap <ℤ (c -ℤ b) = ground arith in omega int_laws
  | inr ge ↦ cc
]

removed_nil :
    (gap : ℤ) (keep : List Interval) (p : Interval) (v : ℤ)
    → removed (cuts gap keep (p ∷ [])) v ≡ pos 0
unfolding removed cuts
removed_nil gap keep p v = refl

-- The two ways a corridor can be treated.
pub cut-or-whole :
    (gap : ℤ) (keep : List Interval) (p q : Interval) (iv : List Interval)
    → ((is_cut gap keep p.1 q.0 ≡ true)
        × (p.1 +ℤ gap <ℤ q.0)
        × (cuts gap keep (p ∷ q ∷ iv) ≡ (p.1 +ℤ gap, q.0 -ℤ p.1 -ℤ gap) ∷ cuts gap keep (q ∷ iv)))
      ⊎ ((is_cut gap keep p.1 q.0 ≡ false) × (cuts gap keep (p ∷ q ∷ iv) ≡ cuts gap keep (q ∷ iv)))
unfolding cuts
cut-or-whole gap keep p q iv = elim (Bool-cases (is_cut gap keep p.1 q.0)) [
  | inl cut ↦ inl (cut, cut_long gap keep p.1 q.0 cut, rw cut refl)
  | inr whole ↦ inr (whole, rw whole refl)
]

-- A cut counts for the positions from its own on.
counts-or-not :
    (cut : ℤ × ℤ) (cs : List (ℤ × ℤ)) (v : ℤ)
    → ((cut.0 <ℤ v) × (removed (cut ∷ cs) v ≡ cut.1 +ℤ removed cs v))
      ⊎ ((v ≤ℤ cut.0) × (removed (cut ∷ cs) v ≡ removed cs v))
unfolding removed
counts-or-not cut cs v = elim (Bool-cases (leb_ℤ (cut.0 +ℤ cut_slack) v)) [
  | inl past ↦ inl (let f : cut.0 +ℤ cut_slack ≤ℤ v = ground arith in omega int_laws, rw past refl)
  | inr early ↦
      inr (let f : v <ℤ cut.0 +ℤ cut_slack = ground arith in omega int_laws, rw early refl)
]

-- Nothing is removed up to the end of the first interval.
pub removed-cuts_first :
    (gap : ℤ) (keep : List Interval) (p : Interval) (iv : List Interval) (v : ℤ)
    → pos 0 ≤ℤ gap
    → IsApart (p ∷ iv)
    → v ≤ℤ p.1
    → removed (cuts gap keep (p ∷ iv)) v ≡ pos 0
removed-cuts_first gap keep p [] v hg a h = removed_nil gap keep p v
removed-cuts_first gap keep p (q ∷ iv) v hg a h =
    let up : v ≤ℤ q.1 = omega (int_laws, a.0, a.1, a.2, h) in
    let rest = removed-cuts_first gap keep q iv v hg a.2 up in
    elim (cut-or-whole gap keep p q iv) [
      | inl cut ↦
          rw (cut.2)
            (elim (counts-or-not (p.1 +ℤ gap, q.0 -ℤ p.1 -ℤ gap) (cuts gap keep (q ∷ iv)) v) [
              | inl past ↦ absurd (omega (int_laws, past.0, h, hg))
              | inr early ↦ early.1 ∙ rest
            ])
      | inr whole ↦ rw (whole.1) rest
    ]

-- How much of the corridor between two neighbours goes.
abbrev pub amount : ℤ → List Interval → Interval → Interval → ℤ
amount gap keep p q = if is_cut gap keep p.1 q.0 then q.0 -ℤ p.1 -ℤ gap else pos 0

amount_bounds :
    (gap : ℤ) (keep : List Interval) (p q : Interval)
    → pos 0 ≤ℤ gap
    → p.1 +ℤ merge_slack <ℤ q.0
    → (pos 0 ≤ℤ amount gap keep p q) × (amount gap keep p q ≤ℤ q.0 -ℤ p.1)
amount_bounds gap keep p q hg h = elim (Bool-cases (is_cut gap keep p.1 q.0)) [
  | inl cut ↦ rw cut (let l = cut_long gap keep p.1 q.0 cut in (omega int_laws, omega int_laws))
  | inr whole ↦ rw whole ((omega int_laws, omega int_laws))
]

pub removed-cuts_later :
    (gap : ℤ) (keep : List Interval) (p q : Interval) (iv : List Interval) (v : ℤ)
    → q.0 ≤ℤ v
    → removed (cuts gap keep (p ∷ q ∷ iv)) v
      ≡ amount gap keep p q +ℤ removed (cuts gap keep (q ∷ iv)) v
removed-cuts_later gap keep p q iv v h = elim (cut-or-whole gap keep p q iv) [
  | inl cut ↦
      rw (cut.2, cut.0)
        (elim (counts-or-not (p.1 +ℤ gap, q.0 -ℤ p.1 -ℤ gap) (cuts gap keep (q ∷ iv)) v) [
          | inl past ↦ past.1
          | inr early ↦ absurd (omega (int_laws, early.0, h, cut.1))
        ])
  | inr whole ↦ rw (whole.1, whole.0) (omega int_laws)
]

Covered-ge :
    (v : ℤ) (p : Interval) (iv : List Interval) → IsApart (p ∷ iv) → Covered v (p ∷ iv) → p.0 ≤ℤ v
Covered-ge v p iv a (inl here) = here.0
Covered-ge v p [] a (inr later) = absurd later
Covered-ge v p (q ∷ iv) a (inr later) =
    let f = Covered-ge v q iv a.2 later in omega (int_laws, f, a.0, a.1)

-- What the first corridor takes is the same for all the later intervals.
pub removed-cuts_tail :
    (gap : ℤ) (keep : List Interval) (p : Interval) (iv : List Interval) (v w : ℤ)
    → IsApart (p ∷ iv)
    → Covered v iv
    → Covered w iv
    → removed (cuts gap keep (p ∷ iv)) v +ℤ removed (cuts gap keep iv) w
      ≡ removed (cuts gap keep (p ∷ iv)) w +ℤ removed (cuts gap keep iv) v
removed-cuts_tail gap keep p [] v w a hv hw = absurd hv
removed-cuts_tail gap keep p (q ∷ iv) v w a hv hw =
    rw
      (
        removed-cuts_later gap keep p q iv v (Covered-ge v q iv a.2 hv),
        removed-cuts_later gap keep p q iv w (Covered-ge w q iv a.2 hw),
      )
      (omega int_laws)

-- From one occupied position to the next, no more is removed than lies between them.
removed_mono :
    (gap : ℤ) (keep : List Interval) (iv : List Interval) (v w : ℤ)
    → pos 0 ≤ℤ gap
    → IsApart iv
    → Covered v iv
    → Covered w iv
    → v ≤ℤ w
    → (removed (cuts gap keep iv) v ≤ℤ removed (cuts gap keep iv) w)
      × (removed (cuts gap keep iv) w +ℤ v ≤ℤ w +ℤ removed (cuts gap keep iv) v)
removed_mono gap keep [] v w hg a hv hw h = absurd hv
removed_mono gap keep (p ∷ iv) v w hg a hv (inl here) h =
    rw
      (
        removed-cuts_first gap keep p iv v hg a (omega (arith, here.1, h)),
        removed-cuts_first gap keep p iv w hg a here.1,
      )
      ((omega int_laws, omega int_laws))
removed_mono gap keep (p ∷ []) v w hg a hv (inr later) h = absurd later
removed_mono gap keep (p ∷ q ∷ iv) v w hg a (inl here) (inr later) h =
    let ge = Covered-ge w q iv a.2 later in
    let (up, close) =
      removed_mono gap keep (q ∷ iv) q.0 w hg a.2 (inl (omega arith, a.2.0)) later ge in
    let (low, high) = amount_bounds gap keep p q hg a.1 in
    rw
      (
        removed-cuts_first gap keep p (q ∷ iv) v hg a here.1,
        removed-cuts_later gap keep p q iv w ge,
      )
      (let first = removed-cuts_first gap keep q iv q.0 hg a.2 a.2.0 in
        let fp = ap pos_part first in
        let fn = ap neg_part first in
        (omega (int_laws, up, low, fp, fn), omega (int_laws, close, high, here.1, fp, fn)))
removed_mono gap keep (p ∷ q ∷ iv) v w hg a (inr early) (inr later) h =
    let (up, close) = removed_mono gap keep (q ∷ iv) v w hg a.2 early later h in
    rw
      (
        removed-cuts_later gap keep p q iv v (Covered-ge v q iv a.2 early),
        removed-cuts_later gap keep p q iv w (Covered-ge w q iv a.2 later),
      )
      ((omega int_laws, omega int_laws))

-- Whatever the figure occupies keeps its order, and comes no further apart.
pub squeeze_mono :
    (gap : ℤ) (keep : List Interval) (iv : List Interval) (v w : ℤ)
    → pos 0 ≤ℤ gap
    → IsApart iv
    → Covered v iv
    → Covered w iv
    → v ≤ℤ w
    → (squeeze (cuts gap keep iv) v ≤ℤ squeeze (cuts gap keep iv) w)
      × (squeeze (cuts gap keep iv) w -ℤ squeeze (cuts gap keep iv) v ≤ℤ w -ℤ v)
unfolding squeeze
squeeze_mono gap keep iv v w hg a hv hw h =
    let (up, close) = removed_mono gap keep iv v w hg a hv hw h in (omega int_laws, omega int_laws)
