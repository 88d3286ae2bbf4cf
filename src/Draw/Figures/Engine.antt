-- ===== src/Draw/Figures/Engine.antt =====
-- `engine` of docs/figs/datapath_tikz/gen_datapath_tikz.py: a capture register, a unit and a hold
-- register in a row.
use Prim.Native.String.{String}
use Prim.Native.String as Str
use simtix.Base.{ℕ, List, [], ◌∷◌, ◌++◌, true, false}
use simtix.Base.Int.{ℤ, ◌+ℤ◌, ◌-ℤ◌}
use simtix.Draw.Figure.{alu, south}
use simtix.Draw.Shapes.{halved}
use simtix.Draw.Script.{Instr, mm, um, num, box_call, reg_call, label_call}
use simtix.Draw.Figures.{xy, left_of, right_of, wired}

-- X_CAP, X_UNIT, X_HOLD and UW
abbrev x_cap : ℤ
x_cap = mm 292

abbrev x_unit : ℤ
x_unit = mm 302

abbrev x_hold : ℤ
x_hold = mm 332

abbrev unit_width : ℤ
unit_width = mm 24

-- The loop over `ins`: a place on the rail, a height and a net.
abbrev engine_inputs : String → List (ℤ × ℤ × String) → List Instr
engine_inputs c [] = []
engine_inputs c ((rx, yy, net) ∷ ins) =
    wired net "bus" (xy rx yy ∷ left_of c yy ∷ []) ∷ engine_inputs c ins

abbrev pub engine :
    String → ℤ → ℤ → List (ℤ × ℤ × String) → List ℕ → List ℕ → List ℕ → ℕ → List Instr
engine name ycen h ins unit_text cap_text hold_text pt =
    let c = Str.◌++◌ "c_" name in
    let u = Str.◌++◌ "u_" name in
    let hold = Str.◌++◌ "h_" name in
    let low = ycen -ℤ halved h in
    let over = num (ycen +ℤ halved h +ℤ um 350) in
    reg_call c x_cap low (mm 5) h []
      ∷ box_call u x_unit (low -ℤ um 500) unit_width (h +ℤ mm 1) unit_text alu pt true false
      ∷ reg_call hold x_hold low (mm 5) h []
      ∷ engine_inputs c ins
    ++ wired (Str.◌++◌ name "_c") "bus" (right_of c ycen ∷ left_of u ycen ∷ [])
      ∷ wired (Str.◌++◌ name "_r") "bus" (right_of u ycen ∷ left_of hold ycen ∷ [])
      ∷ label_call cap_text (num (x_cap +ℤ um 2500)) over south 55
      ∷ label_call hold_text (num (x_hold +ℤ um 2500)) over south 55
      ∷ []
