-- ===== src/Draw/Corridors.antt =====
-- The intervals of docs/figs/datapath_tikz/dp_engine.py (Fig.compact): sorting, merging, cutting.
use simtix.Base.{List, [], ◌∷◌, Bool, true, false, ◌&&◌, ◌||◌, if◌then◌else◌}
use simtix.Base.Int.{ℤ, pos, ◌+ℤ◌, ◌-ℤ◌, ltb_ℤ, leb_ℤ, eqb_ℤ, max_of}

-- An occupied interval (lo, hi) of one axis.
abbrev pub Interval : Type 0
Interval = ℤ × ℤ

-- `1e-6` and `1e-9` mm
abbrev pub merge_slack : ℤ
merge_slack = pos 1000

abbrev pub cut_slack : ℤ
cut_slack = pos 1

-- `iv.sort()`: the order of Python's pairs.
abbrev pub before : Interval → Interval → Bool
before p q = ltb_ℤ p.0 q.0 || (eqb_ℤ p.0 q.0 && leb_ℤ p.1 q.1)

unfoldable pub insert_interval : Interval → List Interval → List Interval
insert_interval p [] = p ∷ []
insert_interval p (q ∷ iv) = if before p q then p ∷ q ∷ iv else q ∷ insert_interval p iv

unfoldable pub sort_intervals : List Interval → List Interval
unfolding insert_interval
sort_intervals [] = []
sort_intervals (p ∷ iv) = insert_interval p (sort_intervals iv)

-- The merging loop; `last` is `merged[-1]`.
unfoldable pub merge_from : Interval → List Interval → List Interval
merge_from last [] = last ∷ []
merge_from last (p ∷ iv) =
    let joined = merge_from (last.0, max_of last.1 p.1) iv in
    let apart = last ∷ merge_from p iv in
    if leb_ℤ p.0 (last.1 +ℤ merge_slack) then joined else apart

unfoldable pub merge : List Interval → List Interval
unfolding merge_from
merge [] = []
merge (p ∷ iv) = merge_from p iv

-- `any(lo <= b and c <= hi for lo, hi in keep)`
unfoldable pub is_kept : ℤ → ℤ → List Interval → Bool
is_kept b c [] = false
is_kept b c (r ∷ keep) = (leb_ℤ r.0 b && leb_ℤ c r.1) || is_kept b c keep

-- The test for a corridor from `b` to `c` that is squeezed.
unfoldable pub is_cut : ℤ → List Interval → ℤ → ℤ → Bool
unfolding is_kept
is_cut gap keep b c =
    if ltb_ℤ gap (c -ℤ b) then (if is_kept b c keep then false else true) else false

-- `cuts`: position and amount removed, for each pair of neighbours.
unfoldable pub cuts : ℤ → List Interval → List Interval → List (ℤ × ℤ)
unfolding is_cut
cuts gap keep [] = []
cuts gap keep (p ∷ []) = []
cuts gap keep (p ∷ q ∷ merged) =
    let rest = cuts gap keep (q ∷ merged) in
    if is_cut gap keep p.1 q.0 then (p.1 +ℤ gap, q.0 -ℤ p.1 -ℤ gap) ∷ rest else rest

-- `sum(amt for pos, amt in cuts if v >= pos + 1e-9)`
unfoldable pub removed : List (ℤ × ℤ) → ℤ → ℤ
removed [] v = pos 0
removed (cut ∷ cs) v =
    let rest = removed cs v in if leb_ℤ (cut.0 +ℤ cut_slack) v then cut.1 +ℤ rest else rest

-- `sum(a for _, a in cuts)`
unfoldable pub total_removed : List (ℤ × ℤ) → ℤ
total_removed [] = pos 0
total_removed (cut ∷ cs) = cut.1 +ℤ total_removed cs

-- The map m of compact.
unfoldable pub squeeze : List (ℤ × ℤ) → ℤ → ℤ
unfolding removed
squeeze cs v = v -ℤ removed cs v
