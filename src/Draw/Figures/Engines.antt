-- ===== src/Draw/Figures/Engines.antt =====
-- The figure of docs/figs/datapath_tikz/gen_datapath_tikz.py: the engines and the coalescing memory.
use simtix.Base.{List, [], ◌∷◌, ◌++◌, true, false}
use simtix.Base.Text.{codes}
use simtix.Draw.Figure.{mem, ctl, ext, south, west}
use simtix.Draw.Wires.{down, up, left}
use simtix.Draw.Curves.{input_port, output, selector, and_gate}
use simtix.Draw.Script.{
  Instr, mm, um, t, at, beside, port, num, x_of, y_of, plus, left_edge, top_edge, reg_call,
  mux_call, gate_call, wire_call, label_call, stub_call,
}
use simtix.Draw.Figures.{xy, left_of, right_of, top_of, bottom_of, text_box, wired}
use simtix.Draw.Figures.Engine.{engine}

-- The operand rails and the two integer engines.
abbrev pub rails : List Instr
rails =
    (wire_call "rv1"
        (xy (mm 192) (um 149_600) ∷ xy (mm 270) (um 149_600) ∷ xy (mm 270) (mm 128) ∷ []) "bus"
        false
      ∷ wire_call "rv2"
          (xy (mm 188) (um 151_600) ∷ xy (mm 274) (um 151_600) ∷ xy (mm 274) (mm 74) ∷ []) "bus"
          false
      ∷ [])
    ++ engine "mul" (mm 144) (mm 9)
        (((mm 270), (mm 147), "rv1") ∷ ((mm 274), (um 141_500), "rv2") ∷ [])
        (t ("Integer MUL" ∷ "3$\\times$(16$\\times$16) DSP" ∷ [])) (codes "q") (codes "mul") 55
    ++ engine "dot" (mm 125) (mm 9)
        (((mm 270), (mm 128), "rv1") ∷ ((mm 274), (um 122_500), "rv2") ∷ [])
        (t ("pdot8 INT8 dot" ∷ "4 DSP + adder tree" ∷ [])) (codes "q") (codes "dot") 55

-- The addresses of the lanes.
abbrev pub addresses : List Instr
addresses =
    wired "alu_y" "bus"
      (at (num (mm 228)) (y_of "alu" output) ∷ xy (mm 228) (mm 110) ∷ xy (mm 292) (mm 110) ∷ [])
    ∷ reg_call "c_a" (mm 292) (mm 104) (mm 5) (mm 12) []
    ∷ label_call (codes "addr") (num (mm 250)) (num (um 110_350)) south 55
    ∷ label_call (codes "addr") (num (um 294_500)) (num (um 116_350)) south 55
    ∷ mux_call "lam" (mm 307) (mm 113) ((mm 110) ∷ (mm 107) ∷ (mm 104) ∷ []) (mm 6) (um 1800) true
        (true ∷ true ∷ true ∷ true ∷ []) false
    ∷ wire_call "a_vec" (right_of "c_a" (mm 110) ∷ xy (um 303_500) (mm 110) ∷ []) "bus" false
    ∷ wired "a_vec" "sig" (xy (um 303_500) (mm 110) ∷ port "lam" (input_port 1) ∷ [])
    ∷ wired "a_vec" "sig"
        (xy (um 303_500) (mm 110) ∷ xy (um 303_500) (mm 113) ∷ port "lam" (input_port 0) ∷ [])
    ∷ wired "a_vec" "sig"
        (xy (um 303_500) (mm 110) ∷ xy (um 303_500) (mm 104) ∷ port "lam" (input_port 3) ∷ [])
    ∷ text_box "tag" (mm 321) (mm 102) (mm 8) (um 17_500) (t ("=" ∷ "$\\times$8" ∷ [])) ctl 65
    ∷ wired "lead_a" "sig" (port "lam" output ∷ beside left_edge "tag" (y_of "lam" output) ∷ [])
    ∷ wired "a_vec" "bus"
        (xy (mm 300) (mm 110) ∷ xy (mm 300) (mm 117) ∷ left_of "tag" (mm 117) ∷ [])
    ∷ label_call (codes "tag") (num (mm 315)) (plus (y_of "lam" output) (um 350)) south 55
    ∷ gate_call "andg" and_gate (mm 336) (mm 113) ((mm 108) ∷ []) (mm 6) (um 1600) ([]) []
    ∷ wired "eq" "bus" (right_of "tag" (mm 113) ∷ port "andg" (input_port 0) ∷ [])
    ∷ []

-- The pending mask.
abbrev pub pending : List Instr
pending =
    mux_call "pmux" (mm 285) (mm 97) ((mm 91) ∷ []) (mm 5) (um 2600) true (false ∷ false ∷ []) false
    ∷ stub_call "pm_m" (port "pmux" (input_port 0)) left (um 2600) (codes "mask") 55 "ctl" true
    ∷ stub_call "pm_s" (port "pmux" selector) down (um 2600) (codes "issue") 55 "ctl" true
    ∷ reg_call "c_p" (mm 292) (mm 89) (mm 5) (mm 10) []
    ∷ wired "pmux_o" "bus" (port "pmux" output ∷ beside left_edge "c_p" (y_of "pmux" output) ∷ [])
    ∷ label_call (codes "pend") (num (um 294_500)) (num (um 99_350)) south 55
    ∷ text_box "pel" (mm 304) (mm 88) (mm 11) (mm 11) (t ("lowest" ∷ "pending" ∷ [])) ctl 55
    ∷ wired "pend" "bus" (right_of "c_p" (mm 94) ∷ left_of "pel" (mm 94) ∷ [])
    ∷ wired "lead" "sig" (beside top_edge "pel" (x_of "lam" selector) ∷ port "lam" selector ∷ [])
    ∷ label_call (codes "lead") (plus (x_of "lam" selector) (um 500)) (num (um 101_600)) west 55
    ∷ wired "pend" "bus" (
        xy (um 300_500) (mm 94)
        ∷ xy (um 300_500) (um 84_500)
        ∷ xy (mm 333) (um 84_500)
        ∷ xy (mm 333) (mm 108)
        ∷ port "andg" (input_port 1)
        ∷ [])
    ∷ gate_call "andpn" and_gate (mm 349) (um 110_500) ((mm 104) ∷ []) (mm 6) (um 1600) (0 ∷ []) []
    ∷ wired "grp" "bus" (port "andg" output ∷ port "andpn" (input_port 0) ∷ [])
    ∷ wired "pend" "bus" (xy (mm 333) (mm 104) ∷ port "andpn" (input_port 1) ∷ [])
    ∷ wired "pnext" "bus" (
        port "andpn" output
        ∷ at (num (mm 358)) (y_of "andpn" output)
        ∷ xy (mm 358) (mm 81)
        ∷ xy (mm 282) (mm 81)
        ∷ xy (mm 282) (mm 91)
        ∷ port "pmux" (input_port 1)
        ∷ [])
    ∷ label_call (codes "grp") (num (um 344_800)) (num (um 110_850)) south 55
    ∷ []

-- The data side.
abbrev pub data_side : List Instr
data_side =
    mux_call "sdm" (mm 285) (mm 74) ((mm 68) ∷ []) (mm 5) (um 2600) true (false ∷ false ∷ []) false
    ∷ wired "rv2" "bus" (xy (mm 274) (mm 74) ∷ port "sdm" (input_port 0) ∷ [])
    ∷ stub_call "sdm_f" (port "sdm" (input_port 1)) left (um 2600) (codes "frv2") 55 "bus" true
    ∷ stub_call "sdm_s" (port "sdm" selector) down (um 2600) (codes "fsw") 55 "ctl" true
    ∷ reg_call "c_d" (mm 292) (mm 65) (mm 5) (mm 12) []
    ∷ wired "sd" "bus" (port "sdm" output ∷ beside left_edge "c_d" (y_of "sdm" output) ∷ [])
    ∷ label_call (codes "data") (num (um 294_500)) (num (um 77_350)) south 55
    ∷ text_box "line" (mm 304) (mm 58) (mm 16) (mm 16)
        (t ("Line port" ∷ "store merge" ∷ "load extract" ∷ [])) ctl 55
    ∷ wired "sd_q" "bus" (right_of "c_d" (mm 71) ∷ left_of "line" (mm 71) ∷ [])
    ∷ wired "lead_a" "sig"
        (at (num (um 316_800)) (y_of "lam" output) ∷ top_of "line" (um 316_800) ∷ [])
    ∷ wired "grp" "bus" (
        xy (mm 346) (um 110_500)
        ∷ xy (mm 346) (mm 78)
        ∷ xy (mm 319) (mm 78)
        ∷ top_of "line" (mm 319)
        ∷ [])
    ∷ text_box "dmem" (mm 330) (mm 56) (mm 18) (mm 18)
        (t ("Shared" ∷ "memory" ∷ "data port" ∷ "256-b line" ∷ [])) ext 55
    ∷ wired "wline" "wide" (right_of "line" (mm 69) ∷ left_of "dmem" (mm 69) ∷ [])
    ∷ wired "rline" "wide" (left_of "dmem" (mm 62) ∷ right_of "line" (mm 62) ∷ [])
    ∷ text_box "scr" (mm 322) (mm 38) (mm 16) (mm 10) (t ("Scratchpad" ∷ "LUTRAM" ∷ [])) mem 55
    ∷ stub_call "scr_i" (left_of "scr" (mm 43)) left (mm 3) (codes "lead lane") 55 "ctl" true
    ∷ mux_call "rmux" (mm 356) (mm 51) ((mm 43) ∷ []) (mm 5) (um 2600) false (false ∷ false ∷ [])
        false
    ∷ wired "ld" "bus"
        (bottom_of "line" (mm 312) ∷ xy (mm 312) (mm 51) ∷ port "rmux" (input_port 0) ∷ [])
    ∷ wired "scrd" "sig" (right_of "scr" (mm 43) ∷ port "rmux" (input_port 1) ∷ [])
    ∷ stub_call "rm_s" (port "rmux" selector) up (um 2400) (codes "scratch") 55 "ctl" true
    ∷ []
