-- ===== src/Draw/Figures/Fetch.antt =====
-- The figure of docs/figs/datapath_tikz/gen_datapath_tikz.py: the fetch stage, and the issue and execute stage.
use simtix.Base.{List, [], ◌∷◌, true, false}
use simtix.Base.Text.{codes}
use simtix.Draw.Figure.{mem, alu, ctl, ext, south, south_west, south_east}
use simtix.Draw.Wires.{down, up, left}
use simtix.Draw.Curves.{input_port, output, selector, port_a, port_b, port_right, port_top}
use simtix.Draw.Script.{
  Instr, mm, um, t, port, num, box_call, reg_call, mux_call, alu_call, circ_call, bar_call,
  label_call, stub_call,
}
use simtix.Draw.Figures.{xy, left_of, right_of, top_of, bottom_of, text_box, wired}

-- The fetch stage.
abbrev pub fetch : List Instr
fetch =
    text_box "wst" (mm 3) (mm 176) (mm 19) (mm 16) (t ("Warp state" ∷ "wstate," ∷ "inflight" ∷ []))
      mem 65
    ∷ reg_call "rrp" (mm 3) (mm 155) (mm 17) (mm 8) (codes "rr\\_ptr")
    ∷ circ_call "inc" (um 11_500) (mm 139) (um 2900) alu
    ∷ box_call "pe" (mm 27) (mm 144) (mm 9) (mm 52) (t ("Round-robin" ∷ "warp select" ∷ [])) ctl 70
        false true
    ∷ text_box "stk" (mm 41) (mm 142) (mm 24) (mm 58)
        (t ("SIMT stack" ∷ "4 warps" ∷ "$\\times$ 8 frames" ∷ "\\{npc, rpc," ∷ "mask\\}, sp" ∷ []))
        mem 65
    ∷ text_box "imem" (mm 68) (mm 139) (mm 13) (mm 14)
        (t ("Shared" ∷ "memory" ∷ "instr." ∷ "port" ∷ [])) ext 55
    ∷ bar_call "bfx" (mm 86) (mm 100) (um 3500) (mm 99) (codes "F/X") true
    ∷ wired "runnable" "sig" (right_of "wst" (mm 184) ∷ left_of "pe" (mm 184) ∷ [])
    ∷ wired "rr" "sig" (right_of "rrp" (mm 159) ∷ left_of "pe" (mm 159) ∷ [])
    ∷ wired "fetch_w" "sig"
        (right_of "pe" (mm 169) ∷ xy (um 38_500) (mm 169) ∷ left_of "stk" (mm 169) ∷ [])
    ∷ wired "fetch_w" "sig"
        (xy (um 38_500) (mm 169) ∷ xy (um 38_500) (mm 122) ∷ left_of "bfx" (mm 122) ∷ [])
    ∷ wired "fetch_w" "sig" (xy (um 38_500) (mm 139) ∷ port "inc" port_right ∷ [])
    ∷ label_call (codes "fetch\\_w") (num (mm 62)) (num (um 122_350)) south 55
    ∷ wired "rr_inc" "sig" (port "inc" port_top ∷ bottom_of "rrp" (um 11_500) ∷ [])
    ∷ wired "stk_sp" "sig" (right_of "stk" (mm 196) ∷ left_of "bfx" (mm 196) ∷ [])
    ∷ label_call (codes "sp") (num (um 75_500)) (num (um 196_350)) south 55
    ∷ wired "stk_rpc" "sig" (right_of "stk" (mm 192) ∷ left_of "bfx" (mm 192) ∷ [])
    ∷ label_call (codes "rpc") (num (um 75_500)) (num (um 192_350)) south 55
    ∷ wired "stk_mask" "bus" (right_of "stk" (mm 185) ∷ left_of "bfx" (mm 185) ∷ [])
    ∷ label_call (codes "mask") (num (um 75_500)) (num (um 185_350)) south 55
    ∷ wired "fetch_pc" "sig" (right_of "stk" (mm 168) ∷ left_of "bfx" (mm 168) ∷ [])
    ∷ wired "fetch_pc" "sig" (xy (um 74_500) (mm 168) ∷ top_of "imem" (um 74_500) ∷ [])
    ∷ label_call (codes "fetch\\_pc") (num (um 69_500)) (num (um 168_350)) south 55
    ∷ wired "instr_f" "sig" (right_of "imem" (mm 146) ∷ left_of "bfx" (mm 146) ∷ [])
    ∷ []

-- Decode, register files and arithmetic.
abbrev pub issue : List Instr
issue =
    text_box "dec" (mm 114) (mm 110) (mm 15) (mm 42) (t ("Decode" ∷ "\\&" ∷ "imm gen" ∷ [])) ctl 65
    ∷ wired "instr" "sig" (right_of "bfx" (mm 146) ∷ left_of "dec" (mm 146) ∷ [])
    ∷ wired "issue_w" "sig" (right_of "bfx" (mm 122) ∷ left_of "dec" (mm 122) ∷ [])
    ∷ label_call (codes "instr") (num (mm 108)) (num (um 146_350)) south 55
    ∷ label_call (codes "issue\\_w") (num (mm 108)) (num (um 122_350)) south 55
    ∷ box_call "vrf" (mm 138) (mm 114) (mm 22) (mm 32)
        (t ("VRF" ∷ "LUTRAM" ∷ "2R / 1W" ∷ "per lane" ∷ [])) mem 65 true false
    ∷ box_call "frf" (mm 138) (mm 60) (mm 22) (mm 32)
        (t ("FRF" ∷ "LUTRAM" ∷ "3R / 1W" ∷ "per lane" ∷ [])) mem 65 true false
    ∷ wired "raddr_v" "sig" (right_of "dec" (mm 140) ∷ left_of "vrf" (mm 140) ∷ [])
    ∷ label_call (codes "\\{w,rs\\}") (num (um 132_500)) (num (um 140_400)) south 55
    ∷ wired "raddr_f" "sig"
        (bottom_of "dec" (mm 121) ∷ xy (mm 121) (mm 84) ∷ left_of "frf" (mm 84) ∷ [])
    ∷ label_call (codes "\\{w,fs\\}") (num (um 125_500)) (num (um 84_400)) south 55
    ∷ text_box "seed" (mm 164) (mm 124) (mm 12) (mm 14) (t ("Seed" ∷ "a0=tid" ∷ "a1--a4" ∷ [])) ctl
        55
    ∷ mux_call "m1" (mm 180) (mm 142) ((mm 134) ∷ []) (mm 5) (um 2600) false (true ∷ true ∷ [])
        false
    ∷ mux_call "m2" (mm 180) (mm 127) ((mm 119) ∷ []) (mm 5) (um 2600) true (true ∷ true ∷ []) false
    ∷ wired "vrd1" "bus" (right_of "vrf" (mm 142) ∷ port "m1" (input_port 0) ∷ [])
    ∷ wired "vrd2" "bus" (right_of "vrf" (mm 119) ∷ port "m2" (input_port 1) ∷ [])
    ∷ wired "seed1" "bus" (right_of "seed" (mm 134) ∷ port "m1" (input_port 1) ∷ [])
    ∷ wired "seed2" "bus" (right_of "seed" (mm 127) ∷ port "m2" (input_port 0) ∷ [])
    ∷ stub_call "wr1" (port "m1" selector) up (mm 3) (codes "wr") 55 "ctl" true
    ∷ stub_call "wr2" (port "m2" selector) down (mm 3) (codes "wr") 55 "ctl" true
    ∷ mux_call "ma" (mm 202) (mm 146) ((mm 142) ∷ (mm 138) ∷ []) (mm 5) (um 2600) true
        (false ∷ false ∷ false ∷ []) false
    ∷ mux_call "mb" (mm 202) (mm 123) ((mm 118) ∷ []) (mm 5) (um 2600) true (false ∷ false ∷ [])
        false
    ∷ alu_call "alu" (mm 213) (mm 142) (um 120_500) (mm 13) alu true
    ∷ wired "rv1" "bus" (port "m1" output ∷ port "ma" (input_port 2) ∷ [])
    ∷ wired "rv2" "bus" (port "m2" output ∷ port "mb" (input_port 0) ∷ [])
    ∷ wired "opa" "bus" (port "ma" output ∷ port "alu" port_a ∷ [])
    ∷ wired "opb" "bus" (port "mb" output ∷ port "alu" port_b ∷ [])
    ∷ label_call (codes "rv1") (num (um 195_500)) (num (um 138_350)) south 55
    ∷ label_call (codes "rv2") (num (um 195_500)) (num (um 123_350)) south 55
    ∷ stub_call "ma_pc" (port "ma" (input_port 0)) left (um 2400) (codes "pc") 55 "ctl" true
    ∷ stub_call "ma_0" (port "ma" (input_port 1)) left (um 2400) (codes "0") 55 "ctl" true
    ∷ stub_call "opa_s" (port "ma" selector) down (um 2600) (codes "asel") 55 "ctl" true
    ∷ stub_call "opb_s" (port "mb" selector) down (um 2600) (codes "bsel") 55 "ctl" true
    ∷ wired "imm" "sig" (
        bottom_of "dec" (mm 125)
        ∷ xy (mm 125) (mm 104)
        ∷ xy (mm 196) (mm 104)
        ∷ xy (mm 196) (mm 118)
        ∷ port "mb" (input_port 1)
        ∷ [])
    ∷ label_call (codes "imm") (num (mm 176)) (num (um 104_350)) south 55
    ∷ []

-- The value that is written back.
abbrev pub write_value : List Instr
write_value =
    mux_call "wbm" (mm 234) (mm 139) ((mm 135) ∷ (um 131_250) ∷ []) (mm 5) (um 2600) true
      (false ∷ false ∷ false ∷ []) false
    ∷ wired "alu_y" "bus" (port "alu" output ∷ port "wbm" (input_port 2) ∷ [])
    ∷ wired "link" "bus"
        (xy (mm 232) (um 145_800) ∷ xy (mm 232) (mm 139) ∷ port "wbm" (input_port 0) ∷ [])
    ∷ wired "tidv" "bus"
        (xy (mm 230) (um 145_800) ∷ xy (mm 230) (mm 135) ∷ port "wbm" (input_port 1) ∷ [])
    ∷ label_call (codes "pc+4") (num (um 232_400)) (num (um 145_900)) south_west 55
    ∷ label_call (codes "tid") (num (um 229_600)) (num (um 145_900)) south_east 55
    ∷ stub_call "wbm_s" (port "wbm" selector) down (um 2600) (codes "wsel") 55 "ctl" true
    ∷ []
