-- ===== src/Draw/Clean.antt =====
-- Polylines that wire of docs/figs/datapath_tikz/dp_engine.py takes as they are.
use Prim.Native.String.{String}
use simtix.Base.{
  List, [], ◌∷◌, some, inl, inr, ◌⊎◌, Bool, true, false, ◌&&◌, ◌||◌, ◌≡◌, refl, ap, ◌∙◌, arith,
  lt→ltb,
}
use simtix.Base.Int.{ℤ, pos, pos_part, ◌-ℤ◌, ◌≤ℤ◌, abs_of, int_laws, eq_of_parts}
use simtix.Draw.Figure.{Point, Fig}
use simtix.Draw.Wires.{
  differs, distinct_from, jitters, snap_last, snap_next, snap_from, is_diagonal, has_diagonal,
  add_line, wire,
}

-- `0.05` mm
abbrev jump : ℤ
jump = pos 50_000_000

-- Two points with one coordinate in common, 0.05 mm or more apart.
abbrev pub IsStep : Point → Point → Type 0
IsStep a b =
    ((a.0 ≡ b.0) × (jump ≤ℤ abs_of (a.1 -ℤ b.1)) × (jump ≤ℤ abs_of (b.1 -ℤ a.1)))
    ⊎ ((a.1 ≡ b.1) × (jump ≤ℤ abs_of (a.0 -ℤ b.0)) × (jump ≤ℤ abs_of (b.0 -ℤ a.0)))

-- Every segment of the polyline is such a step.
abbrev IsClean : List Point → Type 0
IsClean [] = Unit
IsClean (a ∷ []) = Unit
IsClean (a ∷ b ∷ pts) = IsStep a b × IsClean (b ∷ pts)

minus_self : (a b : ℤ) → a ≡ b → abs_of (a -ℤ b) ≡ pos 0
minus_self a b e = rw (e, eq_of_parts (b -ℤ b) (pos 0) (omega int_laws)) refl

differs_not : (a b : ℤ) → a ≡ b → differs a b ≡ false
differs_not a b e = ground (arith, ap pos_part (minus_self a b e))

differs_far : (a b : ℤ) → jump ≤ℤ abs_of (a -ℤ b) → differs a b ≡ true
differs_far a b h = lt→ltb _ _ (omega (arith, h))

jitters_not : (a b : ℤ) → a ≡ b → jitters a b ≡ false
jitters_not a b e = rw e (eq_test b)
  where
    eq_test : (b : ℤ) → jitters b b ≡ false
    eq_test b = ground arith

jitters_far : (a b : ℤ) → jump ≤ℤ abs_of (a -ℤ b) → jitters a b ≡ false
jitters_far a b h = ground (arith, h)

or_true_left : (a b : Bool) → a ≡ true → (a || b) ≡ true
or_true_left a b e = rw e refl

or_true_right : (a b : Bool) → b ≡ true → (a || b) ≡ true
or_true_right true b e = refl
or_true_right false b e = e

moved_test : (a b : Point) → IsStep a b → (differs b.0 a.0 || differs b.1 a.1) ≡ true
moved_test a b (inl s) = or_true_right (differs b.0 a.0) _ (differs_far b.1 a.1 s.2)
moved_test a b (inr s) = or_true_left _ (differs b.1 a.1) (differs_far b.0 a.0 s.2)

straight : (a b : Point) → IsStep a b → is_diagonal a b ≡ false
straight a b (inl s) = rw (differs_not a.0 b.0 s.0) refl
straight a b (inr s) = and_false (differs a.0 b.0) _ (differs_not a.1 b.1 s.0)
  where
    and_false : (p q : Bool) → q ≡ false → (p && q) ≡ false
    and_false true q e = e
    and_false false q e = refl

no_jitter : (a b : Point) → IsStep a b → (jitters a.0 b.0 ≡ false) × (jitters a.1 b.1 ≡ false)
no_jitter a b (inl s) = (jitters_not a.0 b.0 s.0, jitters_far a.1 b.1 s.1)
no_jitter a b (inr s) = (jitters_far a.0 b.0 s.1, jitters_not a.1 b.1 s.0)

snap_next_lem : (a b : Point) → IsStep a b → snap_next a b ≡ b
snap_next_lem a b s = let j = no_jitter a b s in rw (j.0, j.1) refl

snap_last_lem : (a b : Point) → IsStep a b → snap_last a b ≡ a
snap_last_lem a b s = let j = no_jitter a b s in rw (j.0, j.1) refl

distinct_from-clean : (a : Point) (pts : List Point) → IsClean (a ∷ pts) → distinct_from a pts ≡ pts
unfolding distinct_from
distinct_from-clean a [] c = refl
distinct_from-clean a (b ∷ pts) c = rw (moved_test a b c.0, distinct_from-clean b pts c.1) refl

snap_from-clean : (a : Point) (pts : List Point) → IsClean (a ∷ pts) → snap_from a pts ≡ a ∷ pts
unfolding snap_from
snap_from-clean a [] c = refl
snap_from-clean a (b ∷ []) c = ap (λ x. x ∷ b ∷ []) (snap_last_lem a b c.0)
snap_from-clean a (b ∷ d ∷ pts) c =
    ap (λ x. a ∷ snap_from x (d ∷ pts)) (snap_next_lem a b c.0)
    ∙ ap (λ l. a ∷ l) (snap_from-clean b (d ∷ pts) c.1)

has_diagonal-clean : (pts : List Point) → IsClean pts → has_diagonal pts ≡ false
has_diagonal-clean [] c = refl
has_diagonal-clean (a ∷ []) c = refl
has_diagonal-clean (a ∷ b ∷ pts) c = rw (straight a b c.0) (has_diagonal-clean (b ∷ pts) c.1)

-- For a polyline whose neighbouring points share one coordinate and are 0.05 mm or more apart: wire
-- raises no error, changes no point, and only adds the line to its net.
pub wire_clean :
    (net : String) (p : Point) (pts : List Point) (style : String) (arrow : Bool) (f : Fig)
    → IsClean (p ∷ pts)
    → wire net (p ∷ pts) style arrow f
      ≡ some (
        record f { nets = add_line net style (record { pts = p ∷ pts; arrow = arrow }) f.nets },
        p ∷ pts,
      )
unfolding wire
wire_clean net p pts style arrow f c =
    let whole : snap_from p (distinct_from p pts) ≡ p ∷ pts =
      ap (snap_from p) (distinct_from-clean p pts c) ∙ snap_from-clean p pts c in
    rw (whole, has_diagonal-clean (p ∷ pts) c) refl
