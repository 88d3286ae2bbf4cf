-- ===== src/Draw/Figures/Writeback.antt =====
-- The figure of docs/figs/datapath_tikz/gen_datapath_tikz.py: write-back, resume and the cuts.
use simtix.Base.{List, [], ◌∷◌, true, false}
use simtix.Base.Text.{codes}
use simtix.Draw.Figure.{ctl, south, south_west, south_east, west}
use simtix.Draw.Wires.{up}
use simtix.Draw.Curves.{input_port, output, selector}
use simtix.Draw.Compact.{x_axis}
use simtix.Draw.Script.{
  Instr, mm, um, t, at, beside, port, num, x_of, y_of, box_edge, plus, bottom_edge, top_edge,
  mux_call, label_call, stub_call, shift_call,
}
use simtix.Draw.Figures.{below, xy, left_of, right_of, top_of, text_box, wired}

-- The write-back multiplexers and their sources.
abbrev pub writeback : List Instr
writeback =
    mux_call "vwb" (mm 384) (mm 118) ((mm 113) ∷ (mm 108) ∷ (mm 103) ∷ (mm 98) ∷ []) (mm 7)
      (um 2600) false (true ∷ true ∷ true ∷ true ∷ true ∷ []) false
    ∷ mux_call "fwb" (mm 384) (mm 40) ((mm 33) ∷ (mm 27) ∷ []) (mm 7) (um 2800) false
        (true ∷ true ∷ true ∷ []) false
    ∷ wired "mul_o" "bus" (
        right_of "h_mul" (mm 144)
        ∷ xy (mm 380) (mm 144)
        ∷ xy (mm 380) (mm 118)
        ∷ port "vwb" (input_port 0)
        ∷ [])
    ∷ wired "wbv" "bus" (
        port "wbm" output
        ∷ at (num (mm 377)) (y_of "wbm" output)
        ∷ xy (mm 377) (mm 113)
        ∷ port "vwb" (input_port 1)
        ∷ [])
    ∷ label_call (codes "wb\\_val") (num (mm 250)) (plus (y_of "wbm" output) (um 350)) south 55
    ∷ wired "dot_o" "bus" (
        right_of "h_dot" (mm 125)
        ∷ xy (mm 374) (mm 125)
        ∷ xy (mm 374) (mm 108)
        ∷ port "vwb" (input_port 2)
        ∷ [])
    ∷ wired "mem_o" "bus" (
        port "rmux" output
        ∷ at (num (mm 366)) (y_of "rmux" output)
        ∷ xy (mm 366) (mm 103)
        ∷ port "vwb" (input_port 3)
        ∷ [])
    ∷ wired "mem_o" "bus" (
        at (num (mm 366)) (y_of "rmux" output)
        ∷ xy (mm 366) (mm 40)
        ∷ port "fwb" (input_port 0)
        ∷ [])
    ∷ wired "fpc_o" "bus" (
        right_of "h_fpu" (mm 80)
        ∷ xy (mm 224) (mm 80)
        ∷ xy (mm 224) (mm 33)
        ∷ port "fwb" (input_port 1)
        ∷ [])
    ∷ wired "fpc_o" "bus"
        (xy (mm 370) (mm 33) ∷ xy (mm 370) (mm 98) ∷ port "vwb" (input_port 4) ∷ [])
    ∷ wired "sfu_o" "bus" (
        right_of "h_sfu" (mm 47)
        ∷ xy (mm 221) (mm 47)
        ∷ xy (mm 221) (mm 27)
        ∷ port "fwb" (input_port 2)
        ∷ [])
    ∷ label_call (codes "fpc") (num (mm 300)) (num (um 33_350)) south 55
    ∷ label_call (codes "sfu") (num (mm 300)) (num (um 27_350)) south 55
    ∷ label_call (t ("VRF" ∷ "write" ∷ [])) (num (um 391_600)) (plus (y_of "vwb" output) (um 2500))
        south_west 55
    ∷ label_call (t ("FRF" ∷ "write" ∷ [])) (num (um 383_400))
        (plus (box_edge "fwb" top_edge) (um 200)) south_east 55
    ∷ stub_call "fwb_s" (port "fwb" selector) up (um 2400) (codes "prio") 55 "ctl" true
    ∷ []

-- The write ports of the register files.
abbrev pub write_ports : List Instr
write_ports =
    wired "vrf_w" "bus" (
      port "vwb" output
      ∷ at (num (mm 395)) (y_of "vwb" output)
      ∷ xy (mm 395) (mm 18)
      ∷ xy (mm 133) (mm 18)
      ∷ xy (mm 133) (mm 118)
      ∷ left_of "vrf" (mm 118)
      ∷ [])
    ∷ wired "frf_w" "bus" (
        port "fwb" output
        ∷ at (num (um 392_500)) (y_of "fwb" output)
        ∷ xy (um 392_500) (um 21_500)
        ∷ xy (um 135_500) (um 21_500)
        ∷ xy (um 135_500) (mm 64)
        ∷ left_of "frf" (mm 64)
        ∷ [])
    ∷ label_call (codes "VRF write port: \\{w, rd\\}, data, lane enables") (num (mm 250))
        (num (um 18_350)) south 55
    ∷ label_call (codes "FRF write port: \\{w, fd\\}, data, lane enables") (num (mm 250))
        (num (um 21_850)) south 55
    ∷ []

-- Resume, arbiter and stack update.
abbrev pub resume : List Instr
resume =
    text_box "res" (mm 372) (mm 158) (mm 22) (mm 14)
      (t ("Resume" ∷ "W\\_RUN," ∷ "pc$\\gets$resume" ∷ [])) ctl 55
    ∷ text_box "arb" (mm 382) (mm 127) (mm 12) (mm 8) (t ("WB" ∷ "arbiter" ∷ [])) ctl 55
    ∷ wired "vsel" "ctl" (beside bottom_edge "arb" (x_of "vwb" selector) ∷ port "vwb" selector ∷ [])
    ∷ wired "wbfire" "ctl"
        (top_of "arb" (mm 388) ∷ at (num (mm 388)) (box_edge "res" bottom_edge) ∷ [])
    ∷ label_call (t ("grant" ∷ "(wb fire)" ∷ [])) (num (um 388_500)) (num (mm 146)) west 55
    ∷ wired "stk_upd" "sig" (
        top_of "push" (um 245_500)
        ∷ xy (um 245_500) (mm 204)
        ∷ xy (mm 60) (mm 204)
        ∷ top_of "stk" (mm 60)
        ∷ [])
    ∷ label_call (codes "stack write: npc, push / pop, sp$\\pm$1") (num (mm 160)) (num (um 204_350))
        south 55
    ∷ wired "resume" "ctl" (
        top_of "res" (mm 383)
        ∷ xy (mm 383) (um 207_500)
        ∷ xy (mm 48) (um 207_500)
        ∷ top_of "stk" (mm 48)
        ∷ [])
    ∷ wired "resume" "ctl"
        (xy (mm 48) (um 207_500) ∷ xy (mm 12) (um 207_500) ∷ top_of "wst" (mm 12) ∷ [])
    ∷ label_call (codes "resume: \\{w, pc\\} $\\to$ W\\_RUN") (num (mm 300)) (num (um 207_850))
        south 55
    ∷ []

-- The two cuts.
abbrev pub cuts_made : List Instr
cuts_made =
    shift_call (mm 262) (below (mm 8)) x_axis ∷ shift_call (mm 100) (below (mm 12)) x_axis ∷ []
