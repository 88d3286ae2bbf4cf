-- ===== src/Draw/Order.antt =====
-- What compact of docs/figs/datapath_tikz/dp_engine.py keep of a figure.
use simtix.Base.{List, ◌∷◌, ◌++◌, inl, inr, ◌⊎◌, ◌≡◌, ◌∙◌, refl, if◌then◌else◌}
use mathlib.Core.Path.{subst}
use simtix.Base.Int.{ℤ, pos, ◌-ℤ◌, ◌≤ℤ◌, ◌<ℤ◌}
use simtix.Draw.Corridors.{Interval, is_cut, squeeze}
use simtix.Draw.Kept.{IsKept, cut-cases}
use simtix.Draw.Merged.{IsApart}
use simtix.Draw.Squeezed.{squeeze_mono}
use simtix.Draw.Widths.{squeeze-corridor}
use simtix.Draw.Figure.{Point, Fig}
use simtix.Draw.Compact.{Axis, coordinate, cuts_of, compact, map_axis}
use simtix.Draw.Occupied.{IsCorner, occupied-Covered, merged, merged-IsApart, merged-Covered}

-- For a figure, an axis, a gap of 0 mm or more and any ranges to keep: compact moves every
-- coordinate along the axis by one map, under which two corners of the figure's shapes keep
-- their order and come no further apart.
pub compact_order :
    (axis : Axis) (gap : ℤ) (keep : List Interval) (f : Fig) (p q : Point)
    → pos 0 ≤ℤ gap
    → IsCorner f p
    → IsCorner f q
    → coordinate axis p ≤ℤ coordinate axis q
    → (m : ℤ → ℤ) × ((compact axis gap keep f).0 ≡ map_axis axis m f)
      × (m (coordinate axis p) ≤ℤ m (coordinate axis q))
      × (m (coordinate axis q) -ℤ m (coordinate axis p) ≤ℤ coordinate axis q -ℤ coordinate axis p)
unfolding compact cuts_of
compact_order axis gap keep f p q hg cp cq h =
    let cover = merged-Covered axis f in
    let (order, close) =
      squeeze_mono gap keep (merged axis f) (coordinate axis p) (coordinate axis q) hg
        (merged-IsApart axis f) (cover _ (occupied-Covered axis f p cp))
        (cover _ (occupied-Covered axis f q cq)) h in
    (squeeze (cuts_of axis gap keep f), refl, order, close)

-- For a figure, an axis, a gap of 0 mm or more and any ranges to keep: between two neighbouring
-- stretches of the axis that the figure takes, merged where they lie within 10⁻⁶ mm, the map
-- of compact leaves exactly the gap, where the corridor is wider and no range to keep holds it, and
-- the corridor as it was, where it is not wider or some range holds it.
pub compact_corridors :
    (axis : Axis) (gap : ℤ) (keep : List Interval) (f : Fig) (pre : List Interval) (p q : Interval)
    (post : List Interval)
    → pos 0 ≤ℤ gap
    → merged axis f ≡ pre ++ p ∷ q ∷ post
    → ((gap <ℤ q.0 -ℤ p.1)
        × ¬ IsKept keep p.1 q.0
        × (squeeze (cuts_of axis gap keep f) q.0 -ℤ squeeze (cuts_of axis gap keep f) p.1 ≡ gap))
      ⊎ (((q.0 -ℤ p.1 ≤ℤ gap) ⊎ IsKept keep p.1 q.0)
          × (squeeze (cuts_of axis gap keep f) q.0 -ℤ squeeze (cuts_of axis gap keep f) p.1
              ≡ q.0 -ℤ p.1))
unfolding cuts_of
compact_corridors axis gap keep f pre p q post hg e =
    let apart : IsApart (pre ++ p ∷ q ∷ post) = subst IsApart e (merged-IsApart axis f) in
    let width : squeeze (cuts_of axis gap keep f) q.0 -ℤ squeeze (cuts_of axis gap keep f) p.1
        ≡ (if is_cut gap keep p.1 q.0 then gap else q.0 -ℤ p.1) =
      rw e (squeeze-corridor gap keep pre p q post hg apart) in
    elim (cut-cases gap keep p.1 q.0) [
      | inl (cut, wide, free) ↦ inl (wide, free, width ∙ rw cut refl)
      | inr (whole, why) ↦ inr (why, width ∙ rw whole refl)
    ]
