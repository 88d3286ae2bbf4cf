-- ===== src/Sim/Xsim/Table.antt =====
-- The source lists and the table TESTS of sim/run_xsim.py.
use Prim.Native.String.{String}
use simtix.Base.{
  List, [], ◌∷◌, ◌++◌, map, Option, none, some, Bool, true, false, ◌||◌, if◌then◌else◌,
}
use simtix.Base.Text.{Text, codes, ends_with}

pub record TestSpec : Type 0 where
  pub top : Text
  pub sv : List Text
  pub v : List Text
  pub dpi : Bool
  pub generics : Option (List Text)

abbrev files : List String → List Text
files = map codes

abbrev test_entry :
    String → String → List Text → List Text → Bool → Option (List Text) → Text × TestSpec
test_entry name top sv v dpi generics =
    (codes name, record { top = codes top; sv = sv; v = v; dpi = dpi; generics = generics })

-- PKG, POOL, ACCEL, SOC, PS and CHIP
abbrev pkg : List Text
pkg = files ("rtl/accel/simtix_pkg.sv" ∷ [])

abbrev pool : List Text
pool =
    pkg
    ++ files (
        "rtl/accel/simt_fpu.sv" ∷ "rtl/accel/fp_divsqrt.sv" ∷ "rtl/accel/mem_engine.sv"
        ∷ "rtl/accel/warp_pool.sv" ∷ [])

abbrev accel : List Text
accel =
    pkg
    ++ files (
        "rtl/accel/mmio_regs.sv" ∷ "rtl/accel/simt_fpu.sv" ∷ "rtl/accel/fp_divsqrt.sv"
        ∷ "rtl/accel/mem_engine.sv" ∷ "rtl/accel/warp_pool.sv" ∷ "rtl/accel/simt_accel.sv" ∷ [])

abbrev soc : List Text
soc = accel ++ files ("rtl/soc/soc_top.sv" ∷ [])

abbrev ps : List Text
ps =
    accel
    ++ files (
        "rtl/accel/l1_dcache.sv" ∷ "rtl/accel/axi_line_master.sv" ∷ "rtl/soc/simt_ps_top.sv"
        ∷ "tests/axi_mem_model.sv" ∷ [])

abbrev chip : List Text
chip =
    accel
    ++ files (
        "rtl/soc/shared_mem.sv" ∷ "rtl/soc/weight_rom.sv" ∷ "rtl/soc/cpu_driver_rom.sv"
        ∷ "rtl/soc/driver_rom.sv" ∷ "rtl/soc/chip_top.sv" ∷ [])

-- CPU_SOC and CPU_CHIP, of the sorted names that the file system has for rtl/cpu/*.v.
unfoldable pub cpu_soc : List Text → List Text
cpu_soc [] = []
cpu_soc (p ∷ all) = let rest = cpu_soc all in if ends_with (codes "top.v") p then rest else p ∷ rest

abbrev is_memory : Text → Bool
is_memory p =
    ends_with (codes "riscv_soc.v") p
    || ends_with (codes "instr_mem.v") p
    || ends_with (codes "data_mem.v") p

unfoldable pub cpu_chip : List Text → List Text
unfolding cpu_soc
cpu_chip all = without_memories (cpu_soc all)
  where
    without_memories : List Text → List Text
    without_memories [] = []
    without_memories (p ∷ soc_files) =
        let rest = without_memories soc_files in if is_memory p then rest else p ∷ rest

-- TESTS, up to the tests of whole chips.
abbrev unit_tests : List Text → List (Text × TestSpec)
unit_tests cpu_all =
    test_entry "accel" "tb_simt_accel" (accel ++ files ("tests/tb_simt_accel.sv" ∷ [])) [] false
      none
    ∷ test_entry "lane" "tb_lane" (pkg ++ files ("rtl/accel/lane.sv" ∷ "tests/tb_lane.sv" ∷ [])) []
        false none
    ∷ test_entry "warp" "tb_warp" (pkg ++ files ("rtl/accel/warp.sv" ∷ "tests/tb_warp.sv" ∷ [])) []
        false none
    ∷ test_entry "pool" "tb_warp_pool" (pool ++ files ("tests/tb_warp_pool.sv" ∷ [])) [] false none
    ∷ test_entry "pdot8" "tb_pdot8" (pool ++ files ("tests/tb_pdot8.sv" ∷ [])) [] false none
    ∷ test_entry "qgemm" "tb_qgemm" (pool ++ files ("tests/tb_qgemm.sv" ∷ [])) [] false none
    ∷ test_entry "requant" "tb_requant" (pool ++ files ("tests/tb_requant.sv" ∷ [])) [] false none
    ∷ test_entry "qgemv" "tb_qgemv" (pool ++ files ("tests/tb_qgemv.sv" ∷ [])) [] false none
    ∷ test_entry "fp" "tb_fp" (pool ++ files ("tests/tb_fp.sv" ∷ [])) [] false none
    ∷ test_entry "fpu" "tb_fpu"
        (pkg
          ++ files ("rtl/accel/simt_fpu.sv" ∷ "rtl/accel/fp_divsqrt.sv" ∷ "tests/tb_fpu.sv" ∷ []))
        [] true none
    ∷ test_entry "divsqrt" "tb_divsqrt"
        (pkg ++ files ("rtl/accel/fp_divsqrt.sv" ∷ "tests/tb_divsqrt.sv" ∷ [])) [] true none
    ∷ test_entry "fparith" "tb_fparith" (pool ++ files ("tests/tb_fparith.sv" ∷ [])) [] true none
    ∷ test_entry "fpfma" "tb_fpfma" (pool ++ files ("tests/tb_fpfma.sv" ∷ [])) [] true none
    ∷ test_entry "fparith16" "tb_fparith16" (pool ++ files ("tests/tb_fparith16.sv" ∷ [])) [] true
        none
    ∷ test_entry "fpdivsqrt" "tb_fpdivsqrt" (pool ++ files ("tests/tb_fpdivsqrt.sv" ∷ [])) [] true
        none
    ∷ test_entry "fpkernels" "tb_fpkernels" (pool ++ files ("tests/tb_fpkernels.sv" ∷ [])) [] true
        none
    ∷ test_entry "soc" "tb_soc_top" (soc ++ files ("tests/tb_soc_top.sv" ∷ [])) (cpu_soc cpu_all)
        false none
    ∷ test_entry "chip" "tb_chip_top" (chip ++ files ("tests/tb_chip_top.sv" ∷ []))
        (cpu_chip cpu_all) false none
    ∷ []

-- TESTS, the other entries.
abbrev system_tests : List Text → List (Text × TestSpec)
system_tests cpu_all =
    test_entry "sync" "tb_sync" (pool ++ files ("tests/tb_sync.sv" ∷ [])) [] false none
    ∷ test_entry "sync_lat" "tb_sync" (pool ++ files ("tests/tb_sync.sv" ∷ [])) [] false
        (some (files ("MEM_LAT=7" ∷ "MEM_STALL=1" ∷ [])))
    ∷ test_entry "sync_ooo" "tb_sync" (pool ++ files ("tests/tb_sync.sv" ∷ [])) [] false
        (some (files ("MEM_LAT=4" ∷ "MEM_STALL=1" ∷ "MEM_OOO=1" ∷ [])))
    ∷ test_entry "sync_noagg" "tb_sync" (pool ++ files ("tests/tb_sync.sv" ∷ [])) [] false
        (some (files ("MEM_LAT=4" ∷ "MEM_STALL=1" ∷ "MEM_OOO=1" ∷ "AGG=0" ∷ [])))
    ∷ test_entry "sync_apar" "tb_sync"
        (pool ++ files ("rtl/accel/l1_dcache.sv" ∷ "tests/tb_sync.sv" ∷ [])) [] false
        (some (files ("MEM_LAT=20" ∷ "MEM_STALL=1" ∷ "MEM_OOO=1" ∷ "L1=1" ∷ "APAR=1" ∷ [])))
    ∷ test_entry "sync_l1" "tb_sync"
        (pool ++ files ("rtl/accel/l1_dcache.sv" ∷ "tests/tb_sync.sv" ∷ [])) [] false
        (some (files ("MEM_LAT=20" ∷ "MEM_STALL=1" ∷ "MEM_OOO=1" ∷ "L1=1" ∷ [])))
    ∷ test_entry "sync_l1s" "tb_sync"
        (pool ++ files ("rtl/accel/l1_dcache.sv" ∷ "tests/tb_sync.sv" ∷ [])) [] false
        (some (files ("MEM_LAT=20" ∷ "MEM_STALL=1" ∷ "MEM_OOO=1" ∷ "L1=1" ∷ "L1_SETS=2" ∷ [])))
    ∷ test_entry "ps" "tb_ps_top" (ps ++ files ("tests/tb_ps_top.sv" ∷ [])) [] false none
    ∷ test_entry "apps" "tb_apps" (ps ++ files ("tests/tb_apps.sv" ∷ [])) [] false none
    ∷ test_entry "sync_axi" "tb_sync"
        (pool
          ++ files
              ("rtl/accel/l1_dcache.sv" ∷ "rtl/accel/axi_line_master.sv" ∷ "tests/tb_sync.sv" ∷ []))
        [] false (some (files ("MEM_LAT=24" ∷ "MEM_STALL=1" ∷ "MEM_OOO=1" ∷ "L1=1" ∷ "AXI=1" ∷ [])))
    ∷ test_entry "apps_w8" "tb_apps" (ps ++ files ("tests/tb_apps.sv" ∷ [])) [] false none
    ∷ test_entry "ps_wrap" "tb_ps_top" (ps ++ files ("tests/tb_ps_top.sv" ∷ []))
        (files ("rtl/soc/simt_ps_wrap.v" ∷ [])) false none
    ∷ test_entry "ps_b34" "tb_ps_top" (ps ++ files ("tests/tb_ps_top.sv" ∷ [])) [] false none
    ∷ test_entry "ps_wrap_b34" "tb_ps_top" (ps ++ files ("tests/tb_ps_top.sv" ∷ []))
        (files ("rtl/soc/simt_ps_wrap.v" ∷ [])) false none
    ∷ test_entry "apps_b34" "tb_apps" (ps ++ files ("tests/tb_apps.sv" ∷ [])) [] false none
    ∷ test_entry "apps_w8_b34" "tb_apps" (ps ++ files ("tests/tb_apps.sv" ∷ [])) [] false none
    ∷ test_entry "ps_late" "tb_ps_top" (ps ++ files ("tests/tb_ps_top.sv" ∷ [])) [] false
        (some (files ("N=16384" ∷ "MEM_LATE=1" ∷ [])))
    ∷ test_entry "ps_b34_late" "tb_ps_top" (ps ++ files ("tests/tb_ps_top.sv" ∷ [])) [] false
        (some (files ("N=16384" ∷ "MEM_LATE=1" ∷ [])))
    ∷ test_entry "ps_b34_board" "tb_ps_top" (ps ++ files ("tests/tb_ps_top.sv" ∷ [])) [] false
        (some (files ("N=262144" ∷ "MEM_LATE=1" ∷ [])))
    ∷ test_entry "apps_b34_late" "tb_apps" (ps ++ files ("tests/tb_apps.sv" ∷ [])) [] false
        (some (files ("MEM_LATE=1" ∷ [])))
    ∷ []

unfoldable pub tests : List Text → List (Text × TestSpec)
tests cpu_all = unit_tests cpu_all ++ system_tests cpu_all
