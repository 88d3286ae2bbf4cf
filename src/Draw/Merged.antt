-- ===== src/Draw/Merged.antt =====
-- The merging loop of compact (docs/figs/datapath_tikz/dp_engine.py): what it covers, and how far
-- apart its results are.
use simtix.Base.{List, [], ◌∷◌, ◌⊎◌, inl, inr, arith, Bool-cases}
use simtix.Base.Int.{ℤ, ◌+ℤ◌, ◌≤ℤ◌, ◌<ℤ◌, leb_ℤ, max_of, max_of_cases}
use simtix.Draw.Corridors.{
  Interval, merge_slack, before, insert_interval, sort_intervals, merge_from, merge,
}

-- The value stands in one of the intervals.
abbrev pub Covered : ℤ → List Interval → Type 0
Covered v [] = ⊥
Covered v (p ∷ iv) = ((p.0 ≤ℤ v) × (v ≤ℤ p.1)) ⊎ Covered v iv

-- Each interval starts at or after `lo`.
abbrev StartsFrom : ℤ → List Interval → Type 0
StartsFrom lo [] = Unit
StartsFrom lo (p ∷ iv) = (lo ≤ℤ p.0) × StartsFrom lo iv

-- Each starts where the ones before it have started.
abbrev InOrder : List Interval → Type 0
InOrder [] = Unit
InOrder (p ∷ iv) = StartsFrom p.0 iv × InOrder iv

-- The next interval starts beyond `b`.
abbrev Beyond : ℤ → List Interval → Type 0
Beyond b [] = Unit
Beyond b (p ∷ iv) = b +ℤ merge_slack <ℤ p.0

-- The intervals are in order, with a corridor between any two neighbours.
abbrev pub IsApart : List Interval → Type 0
IsApart [] = Unit
IsApart (p ∷ iv) = (p.0 ≤ℤ p.1) × Beyond p.1 iv × IsApart iv

-- Every interval has its ends in order.
abbrev pub AreIntervals : List Interval → Type 0
AreIntervals [] = Unit
AreIntervals (p ∷ iv) = (p.0 ≤ℤ p.1) × AreIntervals iv

StartsFrom-mono : (a b : ℤ) (iv : List Interval) → a ≤ℤ b → StartsFrom b iv → StartsFrom a iv
StartsFrom-mono a b [] h s = tt
StartsFrom-mono a b (p ∷ iv) h s = (omega arith, StartsFrom-mono a b iv h s.1)

StartsFrom-insert :
    (lo : ℤ) (p : Interval) (iv : List Interval)
    → lo ≤ℤ p.0
    → StartsFrom lo iv
    → StartsFrom lo (insert_interval p iv)
unfolding insert_interval
StartsFrom-insert lo p [] h s = (h, tt)
StartsFrom-insert lo p (q ∷ iv) h s = ground (arith, StartsFrom-insert lo p iv)

insert_interval-InOrder :
    (p : Interval) (iv : List Interval) → InOrder iv → InOrder (insert_interval p iv)
unfolding insert_interval
insert_interval-InOrder p [] s = (tt, tt)
insert_interval-InOrder p (q ∷ iv) s = elim (Bool-cases (before p q)) [
  | inl lt ↦ rw lt ((ground arith, StartsFrom-mono p.0 q.0 iv (ground arith) s.0), s)
  | inr ge ↦ rw ge (StartsFrom-insert q.0 p iv (ground arith) s.0, insert_interval-InOrder p iv s.1)
]

pub sort_intervals-InOrder : (iv : List Interval) → InOrder (sort_intervals iv)
unfolding sort_intervals
sort_intervals-InOrder [] = tt
sort_intervals-InOrder (p ∷ iv) =
    insert_interval-InOrder p (sort_intervals iv) (sort_intervals-InOrder iv)

insert_interval-AreIntervals :
    (p : Interval) (iv : List Interval)
    → p.0 ≤ℤ p.1
    → AreIntervals iv
    → AreIntervals (insert_interval p iv)
unfolding insert_interval
insert_interval-AreIntervals p [] h s = (h, tt)
insert_interval-AreIntervals p (q ∷ iv) h s = ground (arith, insert_interval-AreIntervals p iv)

pub sort_intervals-AreIntervals :
    (iv : List Interval) → AreIntervals iv → AreIntervals (sort_intervals iv)
unfolding sort_intervals
sort_intervals-AreIntervals [] h = tt
sort_intervals-AreIntervals (p ∷ iv) h =
    insert_interval-AreIntervals p (sort_intervals iv) h.0 (sort_intervals-AreIntervals iv h.1)

Covered-insert :
    (v : ℤ) (p : Interval) (iv : List Interval)
    → Covered v (p ∷ iv)
    → Covered v (insert_interval p iv)
unfolding insert_interval
Covered-insert v p [] c = c
Covered-insert v p (q ∷ iv) c = ground (arith, Covered-insert v p iv)

pub Covered-sort_intervals :
    (v : ℤ) (iv : List Interval) → Covered v iv → Covered v (sort_intervals iv)
unfolding sort_intervals
Covered-sort_intervals v [] c = c
Covered-sort_intervals v (p ∷ iv) c =
    Covered-insert v p (sort_intervals iv)
      (elim c [ inl here ↦ inl here | inr later ↦ inr (Covered-sort_intervals v iv later) ])

-- Joining `last` with the next interval covers both.
Covered-join :
    (v : ℤ) (last p : Interval) (iv : List Interval)
    → last.0 ≤ℤ p.0
    → Covered v (last ∷ p ∷ iv)
    → Covered v ((last.0, max_of last.1 p.1) ∷ iv)
Covered-join v last p iv h c = elim (max_of_cases last.1 p.1) [
  | inl m ↦ rw m.0 (ground arith)
  | inr m ↦ rw m.0 (ground arith)
]

joined-le : (last p : Interval) → last.0 ≤ℤ last.1 → last.0 ≤ℤ max_of last.1 p.1
joined-le last p h = elim (max_of_cases last.1 p.1) [
  | inl m ↦ rw m.0 h
  | inr m ↦ rw m.0 (omega arith)
]

Covered-merge_from :
    (v : ℤ) (last : Interval) (iv : List Interval)
    → StartsFrom last.0 iv
    → InOrder iv
    → Covered v (last ∷ iv)
    → Covered v (merge_from last iv)
unfolding merge_from
Covered-merge_from v last [] s o c = c
Covered-merge_from v last (p ∷ iv) s o c = elim (Bool-cases (leb_ℤ p.0 (last.1 +ℤ merge_slack))) [
  | inl near ↦
      rw near (
        Covered-merge_from v (last.0, max_of last.1 p.1) iv s.1 o.1
          (Covered-join v last p iv s.0 c))
  | inr far ↦
      rw far
        (elim c [ inl here ↦ inl here | inr later ↦ inr (Covered-merge_from v p iv o.0 o.1 later) ])
]

pub Covered-merge : (v : ℤ) (iv : List Interval) → InOrder iv → Covered v iv → Covered v (merge iv)
unfolding merge
Covered-merge v [] o c = c
Covered-merge v (p ∷ iv) o c = Covered-merge_from v p iv o.0 o.1 c

Beyond-merge_from :
    (b : ℤ) (last : Interval) (iv : List Interval)
    → b +ℤ merge_slack <ℤ last.0
    → Beyond b (merge_from last iv)
unfolding merge_from
Beyond-merge_from b last [] h = h
Beyond-merge_from b last (p ∷ iv) h = elim (Bool-cases (leb_ℤ p.0 (last.1 +ℤ merge_slack))) [
  | inl near ↦ rw near (Beyond-merge_from b (last.0, max_of last.1 p.1) iv h)
  | inr far ↦ rw far h
]

merge_from-IsApart :
    (last : Interval) (iv : List Interval)
    → last.0 ≤ℤ last.1
    → AreIntervals iv
    → IsApart (merge_from last iv)
unfolding merge_from
merge_from-IsApart last [] h a = (h, tt, tt)
merge_from-IsApart last (p ∷ iv) h a = elim (Bool-cases (leb_ℤ p.0 (last.1 +ℤ merge_slack))) [
  | inl near ↦ rw near (merge_from-IsApart (last.0, max_of last.1 p.1) iv (joined-le last p h) a.1)
  | inr far ↦
      rw far (h, Beyond-merge_from last.1 p iv (ground arith), merge_from-IsApart p iv a.0 a.1)
]

pub merge-IsApart : (iv : List Interval) → AreIntervals iv → IsApart (merge iv)
unfolding merge
merge-IsApart [] a = tt
merge-IsApart (p ∷ iv) a = merge_from-IsApart p iv a.0 a.1
