-- ===== src/Draw/Figures/Control.antt =====
-- The figure of docs/figs/datapath_tikz/gen_datapath_tikz.py: the control row and the floating-point units.
use simtix.Base.{List, [], ◌∷◌, true, false}
use simtix.Base.Text.{codes}
use simtix.Draw.Figure.{alu, ctl, south}
use simtix.Draw.Wires.{down, up, left}
use simtix.Draw.Curves.{
  input_port, output, selector, port_left, port_right, port_top, port_bottom, and_gate, or_gate,
}
use simtix.Draw.Script.{
  Instr, mm, um, t, at, beside, port, num, x_of, y_of, box_edge, plus, left_edge, bottom_edge,
  box_call, reg_call, mux_call, circ_call, gate_call, label_call, stub_call,
}
use simtix.Draw.Figures.{xy, left_of, right_of, top_of, bottom_of, text_box, wired}

-- The check for a pop.
abbrev pub pop_check : List Instr
pop_check =
    circ_call "eqp" (mm 123) (mm 192) (um 2400) ctl
    ∷ gate_call "nz" or_gate (mm 112) (mm 196) ([]) (um 5500) (um 1800) ([]) []
    ∷ label_call (codes "$\\neq$0") (num (um 114_600)) (num (mm 198)) south 55
    ∷ wired "cur_sp" "sig" (right_of "bfx" (mm 196) ∷ port "nz" (input_port 0) ∷ [])
    ∷ wired "cur_rpc" "sig" (right_of "bfx" (mm 192) ∷ port "eqp" port_left ∷ [])
    ∷ gate_call "andp" and_gate (mm 130) (mm 196) ((mm 192) ∷ []) (mm 6) (um 1600) ([]) []
    ∷ wired "nz" "sig" (port "nz" output ∷ port "andp" (input_port 0) ∷ [])
    ∷ wired "eqp" "sig" (port "eqp" port_right ∷ port "andp" (input_port 1) ∷ [])
    ∷ []

-- The candidates for the next program counter.
abbrev pub next_pc : List Instr
next_pc =
    circ_call "ai" (mm 137) (mm 161) (um 2800) alu
    ∷ circ_call "a4" (mm 150) (mm 174) (um 2800) alu
    ∷ wired "cur_pc" "sig"
        (right_of "bfx" (mm 168) ∷ xy (mm 150) (mm 168) ∷ port "a4" port_bottom ∷ [])
    ∷ wired "cur_pc" "sig" (xy (mm 123) (mm 168) ∷ port "eqp" port_bottom ∷ [])
    ∷ wired "cur_pc" "sig" (xy (mm 137) (mm 168) ∷ port "ai" port_top ∷ [])
    ∷ label_call (codes "cur\\_pc") (num (mm 96)) (num (um 168_350)) south 55
    ∷ wired "imm" "sig" (top_of "dec" (mm 126) ∷ xy (mm 126) (mm 161) ∷ port "ai" port_left ∷ [])
    ∷ mux_call "npc" (mm 204) (mm 174) ((um 167_500) ∷ (mm 161) ∷ []) (mm 5) (um 2400) false
        (false ∷ false ∷ false ∷ []) false
    ∷ wired "fallthru" "sig" (port "a4" port_right ∷ port "npc" (input_port 0) ∷ [])
    ∷ wired "target" "sig" (port "ai" port_right ∷ port "npc" (input_port 2) ∷ [])
    ∷ label_call (codes "fall-through") (num (mm 175)) (num (um 174_350)) south 55
    ∷ label_call (codes "branch / jal target") (num (mm 168)) (num (um 161_350)) south 55
    ∷ stub_call "jalr" (port "npc" (input_port 1)) left (um 2600) (codes "jalr") 55 "ctl" true
    ∷ stub_call "npc_s" (port "npc" selector) up (um 2400) (codes "psel") 55 "ctl" true
    ∷ []

-- Branches, masks and the stack update.
abbrev pub branches : List Instr
branches =
    text_box "bcmp" (mm 183) (mm 153) (mm 13) (um 6500) (codes "cmp $\\times$8") alu 60
    ∷ wired "rv2" "bus"
        (xy (mm 188) (mm 123) ∷ at (num (mm 188)) (box_edge "bcmp" bottom_edge) ∷ [])
    ∷ wired "rv1" "bus"
        (xy (mm 192) (mm 138) ∷ at (num (mm 192)) (box_edge "bcmp" bottom_edge) ∷ [])
    ∷ stub_call "f3" (left_of "bcmp" (um 156_250)) left (mm 3) (codes "funct3") 55 "ctl" true
    ∷ gate_call "andt" and_gate (mm 222) (um 188_500) ((mm 185) ∷ []) (mm 6) (um 1600) ([]) []
    ∷ gate_call "andn" and_gate (mm 222) (mm 180) ((um 176_500) ∷ []) (mm 6) (um 1600) (1 ∷ []) []
    ∷ wired "t" "bus" (
        right_of "bcmp" (um 156_250)
        ∷ xy (mm 218) (um 156_250)
        ∷ xy (mm 218) (um 188_500)
        ∷ port "andt" (input_port 0)
        ∷ [])
    ∷ wired "t" "bus" (xy (mm 218) (um 176_500) ∷ port "andn" (input_port 1) ∷ [])
    ∷ label_call (codes "t") (num (mm 213)) (num (um 156_600)) south 55
    ∷ wired "cur_mask" "bus" (right_of "bfx" (mm 185) ∷ port "andt" (input_port 1) ∷ [])
    ∷ wired "cur_mask" "bus"
        (xy (mm 220) (mm 185) ∷ xy (mm 220) (mm 180) ∷ port "andn" (input_port 0) ∷ [])
    ∷ label_call (codes "cur\\_mask") (num (mm 160)) (num (um 185_350)) south 55
    ∷ text_box "push" (mm 236) (mm 158) (mm 19) (mm 40)
        (t (
          "Stack" ∷ "update" ∷ "" ∷ "{\\fontsize{5.5}{6.3}\\selectfont uniform:}"
          ∷ "{\\fontsize{5.5}{6.3}\\selectfont retarget}"
          ∷ "{\\fontsize{5.5}{6.3}\\selectfont divergent:}"
          ∷ "{\\fontsize{5.5}{6.3}\\selectfont push frame}"
          ∷ "{\\fontsize{5.5}{6.3}\\selectfont pc = rpc:}"
          ∷ "{\\fontsize{5.5}{6.3}\\selectfont pop}" ∷ []))
        ctl 65
    ∷ wired "taken" "bus" (port "andt" output ∷ beside left_edge "push" (y_of "andt" output) ∷ [])
    ∷ wired "ntaken" "bus" (port "andn" output ∷ beside left_edge "push" (y_of "andn" output) ∷ [])
    ∷ wired "npc" "sig" (port "npc" output ∷ beside left_edge "push" (y_of "npc" output) ∷ [])
    ∷ wired "do_pop" "sig" (port "andp" output ∷ beside left_edge "push" (y_of "andp" output) ∷ [])
    ∷ label_call (codes "taken") (num (mm 232)) (plus (y_of "andt" output) (um 350)) south 55
    ∷ label_call (codes "ntaken") (num (mm 232)) (plus (y_of "andn" output) (um 350)) south 55
    ∷ label_call (codes "npc") (num (mm 232)) (plus (y_of "npc" output) (um 350)) south 55
    ∷ label_call (codes "do\\_pop") (num (mm 175)) (plus (y_of "andp" output) (um 350)) south 55
    ∷ []

-- The floating-point units.
abbrev pub fp_units : List Instr
fp_units =
    reg_call "c_fpu" (mm 172) (mm 67) (mm 6) (mm 25) []
    ∷ box_call "u_fpu" (mm 184) (um 69_500) (mm 24) (mm 21)
        (t ("FPU (5-stage)" ∷ "FP32 / FP16" ∷ "add mul FMA" ∷ "cvt cmp sgnj" ∷ [])) alu 55 true
        false
    ∷ reg_call "h_fpu" (mm 215) (mm 73) (mm 5) (mm 14) []
    ∷ wired "frv3" "bus" (right_of "frf" (mm 88) ∷ left_of "c_fpu" (mm 88) ∷ [])
    ∷ wired "frv2" "bus" (right_of "frf" (mm 80) ∷ left_of "c_fpu" (mm 80) ∷ [])
    ∷ wired "frv1" "bus" (right_of "frf" (mm 72) ∷ left_of "c_fpu" (mm 72) ∷ [])
    ∷ wired "fpu_c" "bus" (right_of "c_fpu" (mm 80) ∷ left_of "u_fpu" (mm 80) ∷ [])
    ∷ wired "fpu_r" "bus" (right_of "u_fpu" (mm 80) ∷ left_of "h_fpu" (mm 80) ∷ [])
    ∷ stub_call "fpu_x" (bottom_of "c_fpu" (um 173_100)) down (mm 3) (codes "rv1") 55 "ctl" true
    ∷ label_call (codes "fs3,2,1") (num (mm 175)) (num (um 92_350)) south 55
    ∷ label_call (codes "fpc") (num (um 217_500)) (num (um 87_350)) south 55
    ∷ reg_call "c_sfu" (mm 172) (mm 40) (mm 6) (mm 14) []
    ∷ wired "frv1" "bus" (xy (mm 169) (mm 72) ∷ xy (mm 169) (mm 50) ∷ left_of "c_sfu" (mm 50) ∷ [])
    ∷ wired "frv2" "bus" (xy (mm 166) (mm 80) ∷ xy (mm 166) (mm 44) ∷ left_of "c_sfu" (mm 44) ∷ [])
    ∷ label_call (codes "fs1,2") (num (mm 175)) (num (um 54_350)) south 55
    ∷ mux_call "lm" (mm 183) (mm 52) ((mm 49) ∷ (mm 46) ∷ (mm 43) ∷ []) (mm 6) (um 1800) false
        (true ∷ true ∷ true ∷ true ∷ []) false
    ∷ wired "sfu_l0" "sig"
        (right_of "c_sfu" (mm 52) ∷ at (x_of "lm" (input_port 0)) (num (mm 52)) ∷ [])
    ∷ wired "sfu_l1" "sig"
        (right_of "c_sfu" (mm 49) ∷ at (x_of "lm" (input_port 0)) (num (mm 49)) ∷ [])
    ∷ wired "sfu_l7" "sig"
        (right_of "c_sfu" (mm 43) ∷ at (x_of "lm" (input_port 0)) (num (mm 43)) ∷ [])
    ∷ text_box "lseq" (um 180_500) (mm 57) (mm 11) (mm 6) (t ("lane seq." ∷ [])) ctl 55
    ∷ wired "lane" "sig" (beside bottom_edge "lseq" (x_of "lm" selector) ∷ port "lm" selector ∷ [])
    ∷ text_box "dsq" (mm 194) (mm 41) (mm 16) (mm 12)
        (t ("div / sqrt" ∷ "iterative" ∷ "1 shared" ∷ [])) alu 55
    ∷ wired "sfu_a" "sig" (port "lm" output ∷ beside left_edge "dsq" (y_of "lm" output) ∷ [])
    ∷ reg_call "h_sfu" (mm 215) (mm 41) (mm 5) (mm 12) []
    ∷ wired "sfu_r" "sig" (right_of "dsq" (mm 47) ∷ left_of "h_sfu" (mm 47) ∷ [])
    ∷ label_call (codes "hold") (num (um 217_500)) (num (um 53_350)) south 55
    ∷ []
