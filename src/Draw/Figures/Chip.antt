-- ===== src/Draw/Figures/Chip.antt =====
-- The figure of docs/figs/chip_top_tikz/gen_chip_top.py: the system-on-chip.
use simtix.Base.{List, [], ◌∷◌, true, false}
use simtix.Base.Text.{codes}
use simtix.Draw.Figure.{mem, alu, ctl, mux, south, south_west, south_east, north, west, east}
use simtix.Draw.Wires.{up}
use simtix.Draw.Curves.{input_port, output, selector}
use simtix.Draw.Script.{
  Instr, mm, um, t, at, port, num, y_of, box_edge, plus, top_edge, box_call, reg_call, mux_call,
  group_call, label_call, stub_call,
}
use simtix.Draw.Figures.{below, xy, left_of, right_of, top_of, bottom_of, text_box, wired}

-- The panels.
abbrev pub panels : List Instr
panels =
    group_call (mm 4) (mm 4) (mm 290) (mm 182) (codes "chip\\_top: SIMTiX system-on-chip") true true
      80 "groupfill"
    ∷ group_call (mm 9) (mm 86) (mm 78) (mm 134) (codes "RISC-V host CPU (5-stage RV32I)") true
        false 70 "groupfill"
    ∷ group_call (mm 152) (mm 46) (mm 286) (mm 176) (codes "simt\\_accel: SIMT accelerator") true
        true 75 "groupfill2"
    ∷ group_call (mm 156) (mm 52) (mm 282) (mm 136)
        (codes "warp\\_pool: SIMT engine, 4 warps $\\times$ 8 lanes") true false 70 "groupfill"
    ∷ group_call (mm 60) (mm 8) (mm 286) (mm 40)
        (codes
          "Shared memory: 16 KB, 8 distributed-RAM banks (bank b holds word b of every 256-bit line); the accelerator line write has priority")
        false true 65 "groupfill"
    ∷ []

-- The host processor.
abbrev pub host_cpu : List Instr
host_cpu =
    text_box "rom" (mm 9) (mm 148) (mm 69) (mm 18) (codes "Driver instruction ROM") mem 80
    ∷ text_box "st_IF" (mm 13) (mm 100) (mm 9) (mm 14) (codes "IF") alu 70
    ∷ text_box "st_ID" (mm 26) (mm 100) (mm 9) (mm 14) (codes "ID") alu 70
    ∷ text_box "st_EX" (mm 39) (mm 100) (mm 9) (mm 14) (codes "EX") alu 70
    ∷ text_box "st_MEM" (mm 52) (mm 100) (mm 9) (mm 14) (codes "MEM") alu 70
    ∷ text_box "st_WB" (mm 65) (mm 100) (mm 9) (mm 14) (codes "WB") alu 70
    ∷ wired "pipe_st_IF" "bus" (right_of "st_IF" (mm 107) ∷ left_of "st_ID" (mm 107) ∷ [])
    ∷ wired "pipe_st_ID" "bus" (right_of "st_ID" (mm 107) ∷ left_of "st_EX" (mm 107) ∷ [])
    ∷ wired "pipe_st_EX" "bus" (right_of "st_EX" (mm 107) ∷ left_of "st_MEM" (mm 107) ∷ [])
    ∷ wired "pipe_st_MEM" "bus" (right_of "st_MEM" (mm 107) ∷ left_of "st_WB" (mm 107) ∷ [])
    ∷ wired "pcf" "sig" (top_of "st_IF" (mm 15) ∷ bottom_of "rom" (mm 15) ∷ [])
    ∷ wired "instrf" "sig" (bottom_of "rom" (mm 20) ∷ top_of "st_IF" (mm 20) ∷ [])
    ∷ label_call (codes "PC") (num (um 14_500)) (num (mm 131)) east 65
    ∷ label_call (codes "instr") (num (um 20_500)) (num (mm 131)) west 65
    ∷ stub_call "memready" (top_of "st_MEM" (um 56_500)) up (um 4500) (codes "mem\\_ready (stall)")
        60 "ctl" true
    ∷ []

-- Address decode, result, weight store, read multiplexer and pins.
abbrev pub decode : List Instr
decode =
    text_box "mmio" (mm 158) (mm 144) (mm 42) (mm 24) (codes "MMIO registers") mem 80
    ∷ text_box "disp" (mm 214) (mm 144) (mm 60) (mm 24) (codes "Dispatcher FSM") ctl 80
    ∷ text_box "dec" (mm 98) (mm 146) (mm 38) (mm 22) (codes "Address decode") ctl 80
    ∷ reg_call "res" (mm 106) (mm 115) (mm 26) (mm 11) (codes "Result register")
    ∷ text_box "wrom" (mm 100) (mm 82) (mm 40) (mm 16) (codes "Weight store (BRAM)") mem 75
    ∷ mux_call "rmux" (mm 82) (mm 106) ((mm 92) ∷ (mm 86) ∷ []) (mm 6) (um 2600) false
        (false ∷ false ∷ false ∷ []) true
    ∷ stub_call "rmux_s" (port "rmux" selector) up (um 3200) (codes "sel") 60 "ctl" true
    ∷ wired "hbus" "bus" (
        bottom_of "st_MEM" (um 54_500)
        ∷ xy (um 54_500) (mm 78)
        ∷ xy (mm 146) (mm 78)
        ∷ xy (mm 146) (mm 158)
        ∷ left_of "mmio" (mm 158)
        ∷ [])
    ∷ wired "hbus" "bus" (xy (mm 146) (mm 156) ∷ right_of "dec" (mm 156) ∷ [])
    ∷ wired "hbus" "bus" (xy (mm 146) (um 120_500) ∷ right_of "res" (um 120_500) ∷ [])
    ∷ wired "hbus" "bus" (xy (mm 118) (mm 78) ∷ bottom_of "wrom" (mm 118) ∷ [])
    ∷ label_call (codes "host data bus: addr, wdata, we, funct3") (num (mm 120)) (num (um 77_600))
        north 65
    ∷ wired "rd_mmio" "sig" (
        left_of "mmio" (mm 149)
        ∷ xy (mm 150) (mm 149)
        ∷ xy (mm 150) (mm 106)
        ∷ port "rmux" (input_port 0)
        ∷ [])
    ∷ label_call (codes "MMIO rdata") (num (mm 124)) (num (um 106_350)) south 60
    ∷ wired "rd_wrom" "sig" (left_of "wrom" (mm 92) ∷ port "rmux" (input_port 1) ∷ [])
    ∷ wired "rdata" "bus" (
        port "rmux" output
        ∷ at (num (um 58_500)) (y_of "rmux" output)
        ∷ bottom_of "st_MEM" (um 58_500)
        ∷ [])
    ∷ label_call (codes "rdata") (num (mm 70)) (plus (y_of "rmux" output) (um 350)) south 65
    ∷ wired "p_result" "bus"
        (left_of "res" (um 118_500) ∷ xy (mm 91) (um 118_500) ∷ xy (mm 91) (mm 190) ∷ [])
    ∷ wired "p_done" "sig" (left_of "res" (mm 123) ∷ xy (mm 94) (mm 123) ∷ xy (mm 94) (mm 190) ∷ [])
    ∷ label_call (codes "result[31:0]") (num (um 90_500)) (num (um 190_300)) south_east 70
    ∷ label_call (codes "done") (num (um 94_500)) (num (um 190_300)) south_west 70
    ∷ wired "clk" "sig" (xy (below (mm 8)) (mm 60) ∷ xy (mm 4) (mm 60) ∷ [])
    ∷ label_call (codes "clk, rst") (num (below (um 8300))) (num (mm 60)) east 70
    ∷ []

-- The registers and the dispatcher.
abbrev pub accelerator : List Instr
accelerator =
    wired "go" "sig" (right_of "mmio" (mm 163) ∷ left_of "disp" (mm 163) ∷ [])
    ∷ label_call (codes "GO") (num (mm 207)) (num (um 163_350)) south 60
    ∷ wired "status" "sig" (left_of "disp" (mm 149) ∷ right_of "mmio" (mm 149) ∷ [])
    ∷ label_call (codes "status") (num (mm 207)) (num (um 148_600)) north 60
    ∷ []

-- The warp pool.
abbrev pub warp_pool : List Instr
warp_pool =
    text_box "sch" (mm 160) (mm 104) (mm 22) (mm 20) (t ("Warp scheduler" ∷ "+ SIMT stacks" ∷ []))
      ctl 65
    ∷ text_box "fd" (mm 187) (mm 104) (mm 20) (mm 20) (t ("Fetch" ∷ "\\& decode" ∷ [])) ctl 65
    ∷ text_box "rf" (mm 212) (mm 104) (mm 22) (mm 20) (t ("VRF + FRF" ∷ "LUTRAM" ∷ "per lane" ∷ []))
        mem 65
    ∷ box_call "ex" (mm 239) (mm 104) (mm 40) (mm 20)
        (t ("Execute $\\times$8 lanes" ∷ "integer ALU" ∷ "5-stage FPU" ∷ [])) alu 65 true false
    ∷ wired "w_sf" "sig" (right_of "sch" (mm 114) ∷ left_of "fd" (mm 114) ∷ [])
    ∷ wired "w_fr" "sig" (right_of "fd" (mm 114) ∷ left_of "rf" (mm 114) ∷ [])
    ∷ wired "w_re" "bus" (right_of "rf" (mm 114) ∷ left_of "ex" (mm 114) ∷ [])
    ∷ text_box "wb" (mm 210) (mm 78) (mm 22) (mm 18) (t ("Write-back" ∷ "arbiters" ∷ [])) ctl 65
    ∷ text_box "eng" (mm 236) (mm 78) (mm 20) (mm 18) (t ("MUL $\\cdot$ pdot8" ∷ "div / sqrt" ∷ []))
        alu 65
    ∷ text_box "meme" (mm 260) (mm 78) (mm 22) (mm 18)
        (t ("Memory engine" ∷ "coalescing" ∷ "+ scratchpad" ∷ [])) ctl 60
    ∷ wired "w_park" "bus" (bottom_of "ex" (mm 246) ∷ top_of "eng" (mm 246) ∷ [])
    ∷ label_call (codes "park") (num (um 246_500)) (num (mm 100)) west 60
    ∷ wired "w_ldst" "bus" (bottom_of "ex" (mm 271) ∷ top_of "meme" (mm 271) ∷ [])
    ∷ label_call (codes "ld/st") (num (um 271_500)) (num (mm 100)) west 60
    ∷ wired "w_eng" "bus" (left_of "eng" (mm 87) ∷ right_of "wb" (mm 87) ∷ [])
    ∷ wired "w_mem" "bus" (
        bottom_of "meme" (mm 263)
        ∷ xy (mm 263) (mm 72)
        ∷ xy (mm 221) (mm 72)
        ∷ bottom_of "wb" (mm 221)
        ∷ [])
    ∷ wired "w_wb" "bus" (top_of "wb" (mm 221) ∷ bottom_of "rf" (mm 221) ∷ [])
    ∷ label_call (codes "write-back") (num (um 221_500)) (num (mm 100)) west 60
    ∷ wired "args" "sig" (bottom_of "mmio" (mm 170) ∷ top_of "sch" (mm 170) ∷ [])
    ∷ label_call (codes "kernel PC, args") (num (um 170_500)) (num (mm 139)) west 60
    ∷ wired "start" "sig" (
        bottom_of "disp" (mm 220)
        ∷ xy (mm 220) (mm 129)
        ∷ xy (mm 177) (mm 129)
        ∷ top_of "sch" (mm 177)
        ∷ [])
    ∷ label_call (codes "start") (num (mm 198)) (num (um 129_350)) south 60
    ∷ wired "pdone" "sig" (xy (mm 262) (mm 136) ∷ bottom_of "disp" (mm 262) ∷ [])
    ∷ label_call (codes "done") (num (um 262_500)) (num (um 139_500)) west 60
    ∷ []

-- The shared memory.
abbrev pub shared_memory : List Instr
shared_memory =
    text_box "pcpu" (mm 66) (mm 28) (mm 32) (mm 8) (codes "CPU word port") mux 65
    ∷ text_box "pif" (mm 186) (mm 28) (mm 22) (mm 8) (codes "instr. port") mux 65
    ∷ text_box "pln" (mm 250) (mm 28) (mm 32) (mm 8) (codes "256-bit line port") mux 65
    ∷ text_box "bank0" (mm 66) (mm 15) (mm 24) (mm 9) (codes "bank 0") mem 65
    ∷ text_box "bank1" (um 93_200) (mm 15) (mm 24) (mm 9) (codes "bank 1") mem 65
    ∷ text_box "bank2" (um 120_400) (mm 15) (mm 24) (mm 9) (codes "bank 2") mem 65
    ∷ text_box "bank3" (um 147_600) (mm 15) (mm 24) (mm 9) (codes "bank 3") mem 65
    ∷ text_box "bank4" (um 174_800) (mm 15) (mm 24) (mm 9) (codes "bank 4") mem 65
    ∷ text_box "bank5" (mm 202) (mm 15) (mm 24) (mm 9) (codes "bank 5") mem 65
    ∷ text_box "bank6" (um 229_200) (mm 15) (mm 24) (mm 9) (codes "bank 6") mem 65
    ∷ text_box "bank7" (um 256_400) (mm 15) (mm 24) (mm 9) (codes "bank 7") mem 65
    ∷ wired "hbus" "bus" (xy (mm 70) (mm 78) ∷ at (num (mm 70)) (box_edge "pcpu" top_edge) ∷ [])
    ∷ wired "rd_shared" "sig"
        (top_of "pcpu" (mm 93) ∷ xy (mm 93) (mm 86) ∷ port "rmux" (input_port 2) ∷ [])
    ∷ wired "imem_a" "sig" (bottom_of "fd" (mm 192) ∷ top_of "pif" (mm 192) ∷ [])
    ∷ wired "imem_d" "sig" (top_of "pif" (mm 201) ∷ bottom_of "fd" (mm 201) ∷ [])
    ∷ label_call (codes "fetch addr") (num (um 191_500)) (num (mm 55)) east 60
    ∷ label_call (codes "instr") (num (um 201_500)) (num (mm 55)) west 60
    ∷ wired "line_w" "wide" (bottom_of "meme" (mm 270) ∷ top_of "pln" (mm 270) ∷ [])
    ∷ wired "line_r" "wide" (top_of "pln" (mm 277) ∷ bottom_of "meme" (mm 277) ∷ [])
    ∷ label_call (codes "256-bit line") (num (um 269_500)) (num (mm 55)) east 60
    ∷ []
