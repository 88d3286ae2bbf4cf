-- ===== src/Lib.antt =====
-- Verification of the Python part of SIMTiX, a SIMT accelerator in RTL: the generator of its
-- application tests (sim/gen_apps.py), the scripts that run the tests and collect their results (sim/),
-- and the engine that draws and checks its schematics (docs/figs/datapath_tikz/dp_engine.py) with two
-- figures drawn by it.
--
-- sim/gen_apps.py makes the inputs of the accelerator's applications and the results that it must give
-- bit for bit. A generator (gemm, spmv, stencil, kmeans, bfs, scan, scanseg, mlp, zbtest) draws inputs,
-- places them in a memory image, lists the kernel launches with their parameter blocks, computes the results in
-- Python, and names the words that memory must hold in the end. `main` packs the kernels into the
-- instruction RAM and writes the files that the test bench reads. run_xsim runs each test bench in the
-- simulator and reads PASS or FAIL in its log; app_sweep, lane_sweep and amo_sweep run it for several
-- configurations and gather the rows of the logs in CSV files; vortex_compare sets these against the
-- cycles of another accelerator.
--
-- dp_engine keeps a figure as data: shapes with polygons, nets of orthogonal polylines, labels, panels.
-- Calls add to it, verify looks for overlaps and collisions, shift and compact move all coordinates, emit
-- draws it. A figure script is a sequence of such calls; it builds its document only if verify finds nothing.
--
-- The files, and what they model:
--   Base        Python lists, dicts, ints, Boolean tests and sorting over the native numbers
--   Kernels     KERNELS, SLOTS and place_kernels; Kernels/Packing and Tight: the packing
--   Fp          f2fr, fr2f, fadd, fmul and fma on 32-bit words. Fp/Rounding, Binade, Scaled, Units,
--               Nearest and Correct show correct rounding, Fp/Value what a word stands for,
--               Fp/Bounds and Accumulate bounds
--   Random      random.Random and struct, as parameters, with the promises of their documentation
--   Ddr         class Image; Ddr/Layout its invariant, Ddr/Readmemh the file of Image.write and
--               $readmemh, Ddr/Case class Case
--   Apps/Gen    the state of a generator: the case under construction and the random source, with
--               `none` for a raised exception; Apps/Logic the rules to reason about it: Held (what a case
--               holds), Runs, Steps (alloc, launch, expect), Finish, Four and Listed
--   Apps/Gemm, Spmv, Stencil, Kmeans, Scan, Scanseg, Zbtest
--               a generator each, its definitions in the parent file and its results below
--   Apps/Bfs    the loop over the levels of the bfs generator; Bfs/Visit, Walks, Wave and Distance: levels
--               are distances
--   Apps/Graph  the random graph of the bfs generator and its compressed rows; Graph/Search the generator,
--               with results in Graph/Edges, Connected, Compressed, Levels, Expected and Result
--   Apps/Mlp    the products and the packed weights of the mlp generator; Mlp/Layers the generator;
--               its products, words, rows and launches in the files beside it, the case in Mlp/Result
--   Apps/Quant  requant and pack8, the INT8 arithmetic of the mlp generator
--   Apps/Output the files that main writes for the cases
--   Apps/Suite  SIZES, APPS, SEED and main; Suite/Only the option --only
--   Sim/Rows    dicts with tuples of strings as keys; Sim/Sweeps app_sweep, lane_sweep and amo_sweep, with
--               results in Sim/Collected and Sim/Merge; Sim/Compare vortex_compare, with results in
--               Sim/Launches and Sim/Compared; Sim/Xsim run_xsim and its table, results in Sim/Passes
--   Draw/Figure, Text, Shapes, Wires
--               the state of a figure, the size of a text, the calls that add blocks, wires and labels
--   Draw/Geometry, Crossings, Problems, Probe, Verify
--               pip, dist_seg, crossings, junctions and verify; results in Draw/Apart, Pairs and Safe
--   Draw/Corridors, Compact
--               the intervals of compact, and moving a figure; results in Draw/Merged, Squeezed,
--               Widths, Kept, Occupied and Order
--   Draw/Clean, Orthogonal, Built
--               the polylines that wire accepts; the figures that calls can build
--   Draw/Curves, Call
--               alu, circ and gate; every call of the engine
--   Draw/Emit   the drawing commands of emit; results in Draw/Hops and Drawn
--   Draw/Script, Figures
--               a figure script as a list of calls, and the two scripts, docs/figs/datapath_tikz/
--               gen_datapath_tikz.py (Engine, Fetch, Control, Engines, Writeback) and
--               docs/figs/chip_top_tikz/gen_chip_top.py (Chip); their main parts in Figures/Main
--   Mnist       the integer inference and the exported words of ml/mnist_quant.py; Mnist/Parts and Store:
--               the image of its on-chip store
--   KernelHeader
--               sw/ps_host/gen_kernels.py
--   Tests       runs, and an example of each result
--
-- Conventions. A Python int that may be negative is a ℤ, a 32-bit word a number below 2^32, `v &
-- 0xFFFF_FFFF` is to_word. Shifts and masks are products, quotients and remainders. A list index is
-- get_elem?, whose `none` is IndexError, and an assertion that fails is `none` too. LANES and SLOTS are
-- fields of Config. A Python string that is taken apart is the list of its code points (Base/Text); the
-- names of shapes and nets are native strings.
--
-- Coordinates. The engine computes with floats in mm; here a coordinate is an integer number of 10⁻⁹ mm,
-- the smallest amount that the engine tells apart, and the rounding of floats is not modelled. A quotient
-- or a root that is compared with something is compared after multiplying or squaring. Font sizes are
-- tenths of a point. A text that is only drawn, like the one in a circle, is not kept; one that a check
-- measures is. The quotients and sines of reg, mux, alu, circ and gate are rounded towards 0. Where verify
-- probes a segment at n points, it looks at the figure n times as large.
--
-- Outside. The simulator, the tools, files and paths are arguments: the return code of a step, the lines
-- of a log, the rows of a CSV file.
--
-- Fuel. `level` of scan and scanseg recurses on fuel, one more than the words to scan: each level has
-- fewer words than the one before. The loop that halves the rows of a segment has one more than the
-- rows. The search of bfs has as much fuel as vertices, since every level but the last finds one. The
-- results below show that the fuel suffices.
--
-- The loop of re.sub has a unit for each character, the printing of a number one more than the number.
--
-- Not modelled: the command line of sim/gen_apps.py; printed summaries, option files and command lines of the
-- scripts of sim; board_sim and vortex_syn; in dp_engine the TikZ text of a command and the preamble; the
-- calls of pdflatex; the other figure scripts, the plots, the training in ml, and the scripts that start
-- compilers; the RTL, C and build files, which are not Python.
pub mod Apps
pub mod Base
pub mod Ddr
pub mod Draw
pub mod Fp
pub mod KernelHeader
pub mod Kernels
pub mod Mnist
pub mod Random
pub mod Sim
pub mod Tests
