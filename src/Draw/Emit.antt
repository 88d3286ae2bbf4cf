-- ===== src/Draw/Emit.antt =====
-- `emit` in docs/figs/datapath_tikz/dp_engine.py: what is drawn, in its order, without the TikZ text of a
-- command and the preamble.
use Prim.Native.String.{String}
use text.Mathlib.Text as Text
use simtix.Base.{ℕ, suc, List, [], ◌∷◌, ◌++◌, map, Bool, ◌&&◌, ◌||◌, if◌then◌else◌}
use simtix.Base.Int.{ℤ, pos, negsuc, ◌+ℤ◌, ◌-ℤ◌, ltb_ℤ, leb_ℤ, eqb_ℤ, min_of, max_of}
use simtix.Fp.{round_even}
use simtix.Draw.Figure.{Point, Box, Polyline, Net, Shape, Label, Fig, wire_segments}
use simtix.Draw.Geometry.{is_level}
use simtix.Draw.Crossings.{Crossing, crossings, junctions, margin}

-- A piece of a path behind its start: a line, or a line up to an arc over a crossing at a place. The
-- arc starts at HOP_R before the place; `true` is an arc drawn to the right.
pub data PathStep : Type 0 where
  line_to : Point → PathStep
  hop : Bool → ℤ → ℤ → PathStep

-- `round(y, 3)` in thousandths of a millimetre
unfoldable pub rounded_3 : ℤ → ℤ
rounded_3 (pos n) = pos (round_even n 1_000_000)
rounded_3 (negsuc n) = pos 0 -ℤ pos (round_even (suc n) 1_000_000)

-- `hops[(net, round(y, 3))]`, empty where there is no such key
unfoldable pub hops_at : String → ℤ → List Crossing → List ℤ
unfolding rounded_3
hops_at net y [] = []
hops_at net y (c ∷ cross) =
    let rest = hops_at net y cross in
    if Text.◌==◌ net c.horizontal && eqb_ℤ (rounded_3 y) (rounded_3 c.y) then c.x ∷ rest else rest

-- Those more than 0.3 mm from both ends.
unfoldable pub inner_hops : ℤ → ℤ → List ℤ → List ℤ
inner_hops l r [] = []
inner_hops l r (x ∷ xs) =
    let rest = inner_hops l r xs in
    if ltb_ℤ (l +ℤ margin) x && ltb_ℤ x (r -ℤ margin) then x ∷ rest else rest

unfoldable pub insert_place : ℤ → List ℤ → List ℤ
insert_place x [] = x ∷ []
insert_place x (y ∷ ys) = let rest = insert_place x ys in if leb_ℤ x y then x ∷ y ∷ ys else y ∷ rest

unfoldable pub sort_places : List ℤ → List ℤ
unfolding insert_place
sort_places [] = []
sort_places (x ∷ xs) = insert_place x (sort_places xs)

-- `xs[::-1]`
unfoldable pub backwards : List ℤ → List ℤ
backwards [] = []
backwards (x ∷ xs) = backwards xs ++ x ∷ []

abbrev pub hop_steps : Bool → ℤ → List ℤ → List PathStep
hop_steps rightward y [] = []
hop_steps rightward y (x ∷ xs) = hop rightward x y ∷ hop_steps rightward y xs

-- The hops of the segment from a to b, in its direction.
unfoldable pub segment_hops : List Crossing → String → Point → Point → List PathStep
unfolding hops_at inner_hops sort_places backwards
segment_hops cross net a b =
    let xs = sort_places (inner_hops (min_of a.0 b.0) (max_of a.0 b.0) (hops_at net a.1 cross)) in
    let ordered = if ltb_ℤ b.0 a.0 then backwards xs else xs in
    if is_level a.1 b.1 then hop_steps (ltb_ℤ a.0 b.0) a.1 ordered else []

unfoldable pub path_steps : List Crossing → String → List Point → List PathStep
unfolding segment_hops
path_steps cross net [] = []
path_steps cross net (a ∷ []) = []
path_steps cross net (a ∷ b ∷ pts) =
    segment_hops cross net a b ++ line_to b ∷ path_steps cross net (b ∷ pts)

-- The arrow heads.
pub data Head : Type 0 where
  no_head arr arrb : Head

-- `st in ('bus', 'wide')`
abbrev is_wide : String → Bool
is_wide style = Text.◌==◌ style "bus" || Text.◌==◌ style "wide"

abbrev pub head_of : String → Bool → Head
head_of style arrow = if arrow then (if is_wide style then arrb else arr) else no_head

-- What is drawn: panels, the commands of a shape, a path from its first point, a dot with its radius
-- and colour, the text of a label.
pub data Command : Type 0 where
  band_command : Box → String → Command
  group_command : Box → String → Command
  frame_command : Box → Command
  shape_commands : Shape → Command
  path_command : String → Head → Point → List PathStep → Command
  dot_command : String → ℕ → Point → Command
  label_command : Label → Command

abbrev pub line_commands : List Crossing → String → String → List Polyline → List Command
line_commands cross net style [] = []
line_commands cross net style (l ∷ lines) =
    let rest = line_commands cross net style lines in
    elim (l.pts) [
      | [] ↦ rest
      | p ∷ pts ↦
          path_command style (head_of style l.arrow) p (path_steps cross net (p ∷ pts)) ∷ rest
    ]

-- 0.8 mm for a bus, or 0.55 mm
abbrev dot_of : String → Point → Command
dot_of style =
    dot_command (if Text.◌==◌ style "ctl" then "ctlwire" else "black")
      (if Text.◌==◌ style "bus" then 800_000_000 else 550_000_000)

unfoldable pub net_commands : List Crossing → List (String × Net) → List Command
unfolding path_steps junctions
net_commands cross [] = []
net_commands cross (e ∷ nets) =
    line_commands cross e.0 e.1.style e.1.lines
    ++ map (dot_of e.1.style) (junctions e.1.lines)
    ++ net_commands cross nets

-- The commands of a figure, and the crossings that are returned.
unfoldable pub emit_figure : Fig → List Command × List Crossing
unfolding net_commands
emit_figure f =
    let cross = crossings (wire_segments f.nets) in
    (
      map (λ (p : Box × String). band_command p.0 p.1) f.bands
          ++ map (λ (p : Box × String). group_command p.0 p.1) f.groups
          ++ map frame_command f.frames
          ++ map shape_commands f.shapes
          ++ net_commands cross f.nets
          ++ map label_command f.labels,
      cross,
    )
