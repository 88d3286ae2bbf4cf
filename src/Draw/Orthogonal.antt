-- ===== src/Draw/Orthogonal.antt =====
-- The polylines that wire and stub of docs/figs/datapath_tikz/dp_engine.py accept.
use Prim.Native.String.{String}
use text.Mathlib.Text as Text
use simtix.Base.{
  ℕ, ◌+◌, ◌≤◌, List, [], ◌∷◌, ◌++◌, none, some, inl, inr, ◌⊎◌, Bool, true, false, ◌&&◌, ◌||◌,
  Bool-cases, ◌≡◌, refl, sym, ap, ◌∙◌, arith, if◌then◌else◌,
}
use mathlib.Core.Path.{subst}
use mathlib.Core.Option.{some-injective}
use simtix.Base.Int.{
  ℤ, pos, negsuc, pos_part, neg_part, ◌+ℤ◌, ◌-ℤ◌, ◌*ℤ◌, ◌≤ℤ◌, abs_of, int_laws, eq_of_parts,
}
use simtix.Draw.Figure.{Point, Polyline, Net, Fig}
use simtix.Draw.Wires.{
  differs, distinct_from, snap_from, is_diagonal, has_diagonal, add_line, wire, stub, Direction,
  down, up, left, right, label, step_of, anchor_of,
}
use simtix.Draw.Apart.{AllOf}
use simtix.Draw.Clean.{IsStep, wire_clean}

-- No segment is off both axes by more than 10⁻⁶ mm.
abbrev pub IsOrthogonal : List Point → Type 0
IsOrthogonal [] = Unit
IsOrthogonal (a ∷ []) = Unit
IsOrthogonal (a ∷ b ∷ pts) =
    ((abs_of (a.0 -ℤ b.0) ≤ℤ pos 1000) ⊎ (abs_of (a.1 -ℤ b.1) ≤ℤ pos 1000)) × IsOrthogonal (b ∷ pts)

-- All polylines of the nets.
abbrev pub NetsOrthogonal : List (String × Net) → Type 0
NetsOrthogonal = AllOf (λ e. AllOf (λ l. IsOrthogonal l.pts) e.1.lines)

level_of : (x y : ℤ) → differs x y ≡ false → abs_of (x -ℤ y) ≤ℤ pos 1000
level_of x y h = ground arith

has_diagonal-IsOrthogonal : (pts : List Point) → has_diagonal pts ≡ false → IsOrthogonal pts
has_diagonal-IsOrthogonal [] e = tt
has_diagonal-IsOrthogonal (a ∷ []) e = tt
has_diagonal-IsOrthogonal (a ∷ b ∷ pts) e = elim (Bool-cases (is_diagonal a b)) [
  | inl d ↦ absurd (diagonal_true (is_diagonal a b) (has_diagonal (b ∷ pts)) d e)
  | inr d ↦ (
    one_level a b d,
    has_diagonal-IsOrthogonal (b ∷ pts) (sym (ap (λ t. t || has_diagonal (b ∷ pts)) d) ∙ e),
  )
]
  where
    diagonal_true : (p q : Bool) → p ≡ true → (p || q) ≡ false → ⊥
    diagonal_true true q h k = cc
    diagonal_true false q h k = cc

    one_level :
        (a b : Point)
        → is_diagonal a b ≡ false
        → (abs_of (a.0 -ℤ b.0) ≤ℤ pos 1000) ⊎ (abs_of (a.1 -ℤ b.1) ≤ℤ pos 1000)
    one_level a b d = elim (Bool-cases (differs a.0 b.0)) [
      | inl off ↦ inr (level_of a.1 b.1 (sym (ap (λ t. t && differs a.1 b.1) off) ∙ d))
      | inr on ↦ inl (level_of a.0 b.0 on)
    ]

AllOf-snoc :
    {A : Type 0} (P : A → Type 0) (xs : List A) (x : A) → AllOf P xs → P x → AllOf P (xs ++ x ∷ [])
AllOf-snoc P [] x a p = (p, tt)
AllOf-snoc P (y ∷ xs) x a p = (a.0, AllOf-snoc P xs x a.1 p)

add_line-NetsOrthogonal :
    (net style : String) (l : Polyline) (nets : List (String × Net))
    → IsOrthogonal l.pts
    → NetsOrthogonal nets
    → NetsOrthogonal (add_line net style l nets)
unfolding add_line
add_line-NetsOrthogonal net style l [] h a = ((h, tt), tt)
add_line-NetsOrthogonal net style l (e ∷ nets) h a = elim (Bool-cases (Text.◌==◌ net e.0)) [
  | inl same ↦ rw same (AllOf-snoc _ e.1.lines l a.0 h, a.1)
  | inr other ↦ rw other (a.0, add_line-NetsOrthogonal net style l nets h a.1)
]

returned :
    {A : Type 0} (b : Bool) (r r' : A)
    → (if b then none else some r) ≡ some r'
    → (b ≡ false) × (r ≡ r')
returned true r r' e = cc
returned false r r' e = (refl, some-injective r r' e)

-- For a figure whose nets hold orthogonal polylines only, up to 10⁻⁶ mm, and any points whatever: if
-- wire returns, so do the nets of the new figure, and the polyline that it returns is orthogonal.
pub wire-NetsOrthogonal :
    (net : String) (pts : List Point) (style : String) (arrow : Bool) (f g : Fig) (q : List Point)
    → NetsOrthogonal f.nets
    → wire net pts style arrow f ≡ some (g, q)
    → NetsOrthogonal g.nets × IsOrthogonal q
unfolding wire
wire-NetsOrthogonal net [] style arrow f g q a e = cc
wire-NetsOrthogonal net (p ∷ pts) style arrow f g q a e =
    let r = snap_from p (distinct_from p pts) in
    let nets = add_line net style (record { pts = r; arrow = arrow }) f.nets in
    let (good, same) = returned (has_diagonal r) (record f { nets = nets }, r) (g, q) e in
    let straight_r = has_diagonal-IsOrthogonal r good in
    (
      subst (λ x. NetsOrthogonal x.0.nets) same
          (add_line-NetsOrthogonal net style (record { pts = r; arrow = arrow }) f.nets straight_r
            a),
      subst (λ x. IsOrthogonal x.1) same straight_r,
    )

zero_times : (n : ℕ) → pos 0 *ℤ pos n ≡ pos 0
unfolding ◌*ℤ◌
zero_times n = ground arith

one_times : (n : ℕ) → pos_part (pos 1 *ℤ pos n) ≡ n + neg_part (pos 1 *ℤ pos n)
unfolding ◌*ℤ◌
one_times n = ground arith

minus_times : (n : ℕ) → neg_part (negsuc 0 *ℤ pos n) ≡ n + pos_part (negsuc 0 *ℤ pos n)
unfolding ◌*ℤ◌
minus_times n = ground arith

add_zero_times : (x : ℤ) (n : ℕ) → x +ℤ pos 0 *ℤ pos n ≡ x
add_zero_times x n = rw (zero_times n) (eq_of_parts (x +ℤ pos 0) x (omega int_laws))

-- The far end of a control stub and its near end.
stub-IsStep :
    (p : Point) (len : ℕ) (d : Direction)
    → 50_000_000 ≤ len
    → IsStep (p.0 +ℤ (step_of d).0 *ℤ pos len, p.1 +ℤ (step_of d).1 *ℤ pos len) p
stub-IsStep p len down h =
    let m = minus_times len in
    inl (add_zero_times p.0 len, omega (int_laws, m, h), omega (int_laws, m, h))
stub-IsStep p len up h =
    let m = one_times len in
    inl (add_zero_times p.0 len, omega (int_laws, m, h), omega (int_laws, m, h))
stub-IsStep p len left h =
    let m = minus_times len in
    inr (add_zero_times p.1 len, omega (int_laws, m, h), omega (int_laws, m, h))
stub-IsStep p len right h =
    let m = one_times len in
    inr (add_zero_times p.1 len, omega (int_laws, m, h), omega (int_laws, m, h))

-- For every figure, point and direction, and a length of 0.05 mm or more: stub raises no error, and
-- the nets of the figure stay orthogonal up to 10⁻⁶ mm if they were.
pub stub_succeeds :
    (net : String) (p : Point) (d : Direction) (len : ℕ) (text : List ℕ) (pt : ℕ) (style : String)
    (arrow : Bool) (f : Fig)
    → 50_000_000 ≤ len
    → NetsOrthogonal f.nets
    → (g : Fig) × (stub net p d (pos len) text pt style arrow f ≡ some g) × NetsOrthogonal g.nets
unfolding stub label
stub_succeeds net p d len text pt style arrow f h a =
    let far : Point = (p.0 +ℤ (step_of d).0 *ℤ pos len, p.1 +ℤ (step_of d).1 *ℤ pos len) in
    let e = wire_clean net far (p ∷ []) style arrow f (stub-IsStep p len d h, tt) in
    let f' : Fig = record f {
      nets = add_line net style (record { pts = far ∷ p ∷ []; arrow = arrow }) f.nets;
    } in
    (
      label text (far.0 +ℤ (step_of d).0 *ℤ pos 300_000_000)
          (far.1 +ℤ (step_of d).1 *ℤ pos 300_000_000) (anchor_of d) pt f',
      rw (e, stub) refl,
      (wire-NetsOrthogonal net (far ∷ p ∷ []) style arrow f _ _ a e).0,
    )
