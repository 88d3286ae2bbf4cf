-- ===== src/Draw/Built.antt =====
-- Every figure that the calls of docs/figs/datapath_tikz/dp_engine.py can build.
use Prim.Native.String.{String}
use text.Mathlib.Text as Text
use text.Mathlib.TextEquality.{eq_iff}
use mathlib.Core.Path.{subst}
use mathlib.Core.Option.{some-injective}
use simtix.Base.{
  ℕ, List, [], ◌∷◌, ◌++◌, map, Option, none, some, inl, inr, Bool, true, false, ◌||◌, Bool-cases,
  ◌≡◌, refl, sym, ap, ◌∙◌, arith, if◌then◌else◌,
}
use simtix.Base.Int.{ℤ, ◌+ℤ◌, ◌*ℤ◌}
use simtix.Draw.Figure.{Point, Shape, Anchor, Fig, bounds}
use simtix.Draw.Wires.{
  wire, label, stub, Direction, distinct_from, snap_from, has_diagonal, add_line, step_of,
}
use simtix.Draw.Shapes.{has_name, add, box, reg_block, mux_block, bar, group}
use simtix.Draw.Curves.{alu, circ, gate_block}
use simtix.Draw.Call.{
  Call, a_box, a_reg, a_mux, a_alu, a_circ, a_gate, a_bar, a_group, a_wire, a_label, a_stub,
  a_frame, the_bands, a_shift, a_compact, frame, Built, started, called,
}
use simtix.Draw.Compact.{Axis, x_axis, y_axis, map_axis, move_shape, shift, compact}

-- Each shape's name is its own.
abbrev AreDistinct : List Shape → Type 0
AreDistinct [] = Unit
AreDistinct (s ∷ shapes) = (has_name s.name shapes ≡ false) × AreDistinct shapes

-- The box kept for each shape is the box of its polygon.
abbrev AreBoxed : List Shape → Type 0
AreBoxed [] = Unit
AreBoxed (s ∷ shapes) = (s.bb ≡ bounds s.poly) × AreBoxed shapes

abbrev pub IsConsistent : Fig → Type 0
IsConsistent f = AreDistinct f.shapes × AreBoxed f.shapes

eq_sym : (a b : String) → Text.◌==◌ a b ≡ false → Text.◌==◌ b a ≡ false
eq_sym a b h = ground (arith, eq_iff a b, eq_iff b a)

has_name-append :
    (name : String) (xs : List Shape) (s : Shape)
    → has_name name xs ≡ false
    → Text.◌==◌ name s.name ≡ false
    → has_name name (xs ++ s ∷ []) ≡ false
unfolding has_name
has_name-append name [] s h k = rw k refl
has_name-append name (x ∷ xs) s h k = elim (Bool-cases (Text.◌==◌ name x.name)) [
  | inl same ↦ cc
  | inr other ↦
      rw other (has_name-append name xs s (sym (ap (λ b. b || has_name name xs) other) ∙ h) k)
]

AreDistinct-snoc :
    (xs : List Shape) (s : Shape)
    → has_name s.name xs ≡ false
    → AreDistinct xs
    → AreDistinct (xs ++ s ∷ [])
unfolding has_name
AreDistinct-snoc [] s h d = (refl, tt)
AreDistinct-snoc (x ∷ xs) s h d = elim (Bool-cases (Text.◌==◌ s.name x.name)) [
  | inl same ↦ absurd (taken _ (has_name s.name xs) same h)
  | inr other ↦ (
    has_name-append x.name xs s d.0 (eq_sym s.name x.name other),
    AreDistinct-snoc xs s (sym (ap (λ b. b || has_name s.name xs) other) ∙ h) d.1,
  )
]
  where
    taken : (a b : Bool) → a ≡ true → (a || b) ≡ false → ⊥
    taken true b e h = cc
    taken false b e h = cc

AreBoxed-snoc :
    (xs : List Shape) (s : Shape) → s.bb ≡ bounds s.poly → AreBoxed xs → AreBoxed (xs ++ s ∷ [])
AreBoxed-snoc [] s e b = (e, tt)
AreBoxed-snoc (x ∷ xs) s e b = (b.0, AreBoxed-snoc xs s e b.1)

add-IsConsistent :
    (s : Shape) (f g : Fig)
    → s.bb ≡ bounds s.poly
    → add s f ≡ some g
    → IsConsistent f
    → IsConsistent g
unfolding add
add-IsConsistent s f g e h c = elim (Bool-cases (has_name s.name f.shapes)) [
  | inl bad ↦ absurd (no_some _ _ g bad h)
  | inr free ↦
      subst IsConsistent (the_some _ _ g free h)
        (AreDistinct-snoc f.shapes s free c.0, AreBoxed-snoc f.shapes s e c.1)
]
  where
    no_some : (b : Bool) (r g : Fig) → b ≡ true → (if b then none else some r) ≡ some g → ⊥
    no_some true r g e h = cc
    no_some false r g e h = cc

    the_some : (b : Bool) (r g : Fig) → b ≡ false → (if b then none else some r) ≡ some g → r ≡ g
    the_some true r g e h = cc
    the_some false r g e h = some-injective r g h

has_name-map :
    (fx fy : ℤ → ℤ) (name : String) (xs : List Shape)
    → has_name name (map (move_shape fx fy) xs) ≡ has_name name xs
unfolding has_name
has_name-map fx fy name [] = refl
has_name-map fx fy name (x ∷ xs) = ap (λ b. Text.◌==◌ name x.name || b) (has_name-map fx fy name xs)

map-AreDistinct :
    (fx fy : ℤ → ℤ) (xs : List Shape) → AreDistinct xs → AreDistinct (map (move_shape fx fy) xs)
map-AreDistinct fx fy [] d = tt
map-AreDistinct fx fy (x ∷ xs) d =
    (has_name-map fx fy x.name xs ∙ d.0, map-AreDistinct fx fy xs d.1)

map-AreBoxed : (fx fy : ℤ → ℤ) (xs : List Shape) → AreBoxed (map (move_shape fx fy) xs)
map-AreBoxed fx fy [] = tt
map-AreBoxed fx fy (x ∷ xs) = (refl, map-AreBoxed fx fy xs)

map_axis-IsConsistent :
    (axis : Axis) (m : ℤ → ℤ) (f : Fig) → IsConsistent f → IsConsistent (map_axis axis m f)
unfolding map_axis
map_axis-IsConsistent x_axis m f c =
    (map-AreDistinct m (λ v. v) f.shapes c.0, map-AreBoxed m (λ v. v) f.shapes)
map_axis-IsConsistent y_axis m f c =
    (map-AreDistinct (λ v. v) m f.shapes c.0, map-AreBoxed (λ v. v) m f.shapes)

with_ports :
    {P : Type 0} (o : Option Fig) (ps ports : P) (g : Fig)
    → ◌≡◌ {A = Option (Fig × P)}
        (elim o [ none ↦ none | some g' ↦ some (g', ps) ])
        (some (g, ports))
    → o ≡ some g
with_ports none ps ports g h = cc
with_ports (some g') ps ports g h = ap some (ap (λ r. r.0) (some-injective (g', ps) (g, ports) h))

-- wire changes nothing but the nets.
wire_shapes :
    (net : String) (pts q : List Point) (style : String) (arrow : Bool) (f g : Fig)
    → wire net pts style arrow f ≡ some (g, q)
    → g.shapes ≡ f.shapes
unfolding wire
wire_shapes net [] q style arrow f g h = cc
wire_shapes net (p ∷ pts) q style arrow f g h =
    let r = snap_from p (distinct_from p pts) in
    let f' : Fig = record f {
      nets = add_line net style (record { pts = r; arrow = arrow }) f.nets;
    } in
    read_shapes (has_diagonal r) f' r h
  where
    read_shapes :
        (b : Bool) (f' : Fig) (r : List Point)
        → ◌≡◌ {A = Option (Fig × List Point)} (if b then none else some (f', r)) (some (g, q))
        → g.shapes ≡ f'.shapes
    read_shapes true f' r h = cc
    read_shapes false f' r h = sym (ap (λ e. e.0.shapes) (some-injective (f', r) (g, q) h))

stub_shapes :
    (net : String) (p : Point) (d : Direction) (len : ℤ) (text : List ℕ) (pt : ℕ) (style : String)
    (arrow : Bool) (f g : Fig)
    → stub net p d len text pt style arrow f ≡ some g
    → g.shapes ≡ f.shapes
unfolding stub label
stub_shapes net p d len text pt style arrow f g h =
    let far : Point = (p.0 +ℤ (step_of d).0 *ℤ len, p.1 +ℤ (step_of d).1 *ℤ len) in
    labelled _ _ _ _ _ _ (λ f' q e. wire_shapes net (far ∷ p ∷ []) q style arrow f f' e) h
  where
    labelled :
        (o : Option (Fig × List Point)) (text : List ℕ) (x y : ℤ) (anchor : Anchor) (pt : ℕ)
        → ((f' : Fig) (q : List Point) → o ≡ some (f', q) → f'.shapes ≡ f.shapes)
        → ◌≡◌ {A = Option Fig}
            (elim o [ none ↦ none | some (f', q) ↦ some (label text x y anchor pt f') ])
            (some g)
        → g.shapes ≡ f.shapes
    labelled none text x y anchor pt k h = cc
    labelled (some (f', q)) text x y anchor pt k h =
        sym (ap (λ e. e.shapes) (some-injective (label text x y anchor pt f') g h)) ∙ k f' q refl

Call-IsConsistent : {f g : Fig} → Call f g → IsConsistent f → IsConsistent g
unfolding box reg_block mux_block alu circ gate_block bar group frame label shift compact
Call-IsConsistent {f} {g} (a_box name x y w h text kind pt rep rot e) c =
    add-IsConsistent _ _ g refl e c
Call-IsConsistent {f} {g} (a_reg name x y w h text e) c = add-IsConsistent _ f g refl e c
Call-IsConsistent {f} {g} (a_mux name x y rest w pad sel_bottom ins flip ports e) c =
    add-IsConsistent _ f g refl (with_ports _ _ ports g e) c
Call-IsConsistent {f} {g} (a_alu name x ya yb w kind rep ports e) c =
    add-IsConsistent _ f g refl (with_ports _ _ ports g e) c
Call-IsConsistent {f} {g} (a_circ name cx cy r kind ports e) c =
    add-IsConsistent _ f g refl (with_ports _ _ ports g e) c
Call-IsConsistent {f} {g} (a_gate name typ x y rest w pad neg_in lbl ports e) c =
    add-IsConsistent _ f g refl (with_ports _ _ ports g e) c
Call-IsConsistent {f} {g} (a_bar name x y w h text below e) c = add-IsConsistent _ f g refl e c
Call-IsConsistent (a_group x0 y0 x1 y1 title north west pt fill) c = c
Call-IsConsistent {f} {g} (a_wire net pts q style arrow e) c =
    let same = wire_shapes net pts q style arrow f g e in
    subst (λ l. AreDistinct l × AreBoxed l) (sym same) c
Call-IsConsistent (a_label text x y anchor pt) c = c
Call-IsConsistent {f} {g} (a_stub net p d len text pt style arrow e) c =
    let same = stub_shapes net p d len text pt style arrow f g e in
    subst (λ l. AreDistinct l × AreBoxed l) (sym same) c
Call-IsConsistent (a_frame x0 y0 x1 y1) c = c
Call-IsConsistent (the_bands bands) c = c
Call-IsConsistent {f} (a_shift v_from dv axis) c = map_axis-IsConsistent axis _ f c
Call-IsConsistent {f} (a_compact axis gap keep) c = map_axis-IsConsistent axis _ f c

-- For every figure that any sequence of successful calls of the engine makes of the empty one: the
-- names of its shapes are distinct, and the box kept with each shape is the box of its polygon.
pub Built-IsConsistent : {f : Fig} → Built f → IsConsistent f
Built-IsConsistent started = (tt, tt)
Built-IsConsistent (called b c) = Call-IsConsistent c (Built-IsConsistent b)
