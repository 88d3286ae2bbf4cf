-- ===== src/Tests/Sweeps.antt =====
-- An example of each result on the scripts that run the simulations.
use simtix.Base.{
  ℕ, List, [], ◌∷◌, ◌++◌, map, ◌⊎◌, some, true, false, ◌≡◌, ◌↔◌, refl, if◌then◌else◌, ◌==◌,
}
use simtix.Base.Text.{Text, codes, contains, str}
use simtix.Sim.Rows.{Rows, find}
use simtix.Sim.Sweeps.{RunLog, collect, totals, count_or_zero, among, lane_rows, merged_rows}
use simtix.Sim.Collected.{collect_repeated, cycles_of, totals_lem}
use simtix.Sim.Merge.{rows_of, old_rows_of, merged_rows_lem}
use simtix.Sim.Compare.{Counts, TableRow, compare, differ, table, machine}
use simtix.Sim.Compare as Compare
use simtix.Sim.Launches.{Every}
use simtix.Sim.Compared.{Agrees, IsFirst, ReadsLast, difference, compare_lem}
use simtix.Sim.Xsim.Table.{tests}
use simtix.Sim.Xsim.{Step, splitlines, run_test, failed_message, main_status, chosen}
use simtix.Sim.Xsim as Xsim
use simtix.Sim.Passes.{IsPassing, IsMessage, run_test_lem, main_status_lem}

-- The log of two launches.
abbrev log_lines : List Text
log_lines = map codes ("INFO: start" ∷ "APPCSV,gemm,g,64,100,1,2" ∷ "APPCSV,bfs,b0,64,20,1,2" ∷ [])

collect_repeated_example :
    collect (codes "APPCSV,") 2 (codes "ser" ∷ []) (
      some (
        log_lines
        ++ (codes "APPCSV,bfs,b0,64,20,1,2" ∷ [])
        ++ (codes "APPCSV,bfs,b0,64,20,1,2" ∷ [])))
    ≡ collect
        (codes "APPCSV,")
        2
        (codes "ser" ∷ [])
        (some (log_lines ++ codes "APPCSV,bfs,b0,64,20,1,2" ∷ []))
collect_repeated_example =
    collect_repeated (codes "APPCSV,") 2 (codes "ser" ∷ []) log_lines
      (codes "APPCSV,bfs,b0,64,20,1,2" ∷ [])

abbrev sweep_rows : List (List Text)
sweep_rows =
    map codes ("ser" ∷ "gemm" ∷ "g0" ∷ "64" ∷ "100" ∷ [])
    ∷ map codes ("ser" ∷ "gemm" ∷ "g1" ∷ "64" ∷ "23" ∷ [])
    ∷ []

abbrev ser_gemm : List Text
ser_gemm = map codes ("ser" ∷ "gemm" ∷ [])

totals_sweep : totals sweep_rows [] ≡ some ((ser_gemm, 123) ∷ [])
unfolding totals
totals_sweep = refl

totals_lem_example :
    count_or_zero (find ser_gemm ((ser_gemm, 123) ∷ [])) ≡ cycles_of ser_gemm sweep_rows
totals_lem_example = totals_lem ser_gemm sweep_rows ((ser_gemm, 123) ∷ []) totals_sweep

-- 8 lanes are run again, 4 are kept from before.
abbrev eight_run : List (ℕ × RunLog)
eight_run = (8, record { ok = true; log = some log_lines }) ∷ []

abbrev old_file : List (List Text)
old_file =
    map codes ("8" ∷ "gemm" ∷ "g" ∷ "64" ∷ "99" ∷ [])
    ∷ map codes ("4" ∷ "gemm" ∷ "g" ∷ "64" ∷ "70" ∷ [])
    ∷ []

abbrev merged_file : List (ℕ × List Text)
merged_file =
    (4, map codes ("4" ∷ "gemm" ∷ "g" ∷ "64" ∷ "70" ∷ []))
    ∷ (8, map codes ("8" ∷ "gemm" ∷ "g" ∷ "64" ∷ "100" ∷ "1" ∷ "2" ∷ []))
    ∷ (8, map codes ("8" ∷ "bfs" ∷ "b0" ∷ "64" ∷ "20" ∷ "1" ∷ "2" ∷ []))
    ∷ []

merged_eight : merged_rows eight_run old_file ≡ some merged_file
unfolding merged_rows str
merged_eight = refl

merged_rows_lem_example : rows_of 4 merged_file ≡ (
    if among 4 (map (λ r. r.0) eight_run)
    then rows_of 4 (lane_rows eight_run)
    else old_rows_of 4 old_file)
merged_rows_lem_example = merged_rows_lem 4 eight_run old_file merged_file merged_eight

abbrev simtix_rows : Rows Counts
simtix_rows = (map codes ("gemm" ∷ "g" ∷ []), (100, 40)) ∷ []

abbrev vortex_run : Compare.Machine
vortex_run = machine (codes "v") ((map codes ("gemm" ∷ "g" ∷ []), (300, 50)) ∷ [])

-- Two runs of one name; the second has a launch that SIMTiX lacks.
abbrev v_twice : List Compare.Machine
v_twice =
    vortex_run
    ∷ machine (codes "v")
        ((map codes ("gemm" ∷ "g" ∷ []), (300, 50)) ∷ (map codes ("bfs" ∷ "b" ∷ []), (9, 5)) ∷ [])
    ∷ []

v_twice_differ :
    compare simtix_rows v_twice ≡ differ (codes "v" ∷ []) [] (map codes ("bfs" ∷ "b" ∷ []) ∷ [])
unfolding compare
v_twice_differ = refl

compare_lem_example :
    (simtix : Rows Counts) × (others : List Compare.Machine) × ReadsLast simtix_rows v_twice simtix
      others
    × ((Every (Agrees simtix) others
          × (t : List TableRow) × (compare simtix_rows v_twice ≡ table t))
        ⊎ ((m : Compare.Machine) × IsFirst simtix others m
            × (compare simtix_rows v_twice ≡ difference simtix m)))
compare_lem_example = compare_lem simtix_rows v_twice

abbrev two_steps : List Step
two_steps = record { tag = codes "xelab"; cmd = [] } ∷ record { tag = codes "xsim"; cmd = [] } ∷ []

abbrev good_run : Xsim.Machine
good_run = record { run = λ s. 0; log = codes "tb_pool: PASS" }

-- A log with PASS does not pass where it has Fatal too.
fatal_fails :
    (run_test (codes "pool") (record { run = λ s. 0; log = codes "PASS\nFatal: stop" }) two_steps).0
    ≡ false
unfolding run_test splitlines
fatal_fails = refl

-- The elaboration fails.
elab_fails :
    run_test (codes "pool") (record { run = λ s. 1; log = [] }) two_steps
    ≡ (false, codes "xelab failed (see build_xsim/pool/xelab.log)")
unfolding run_test
elab_fails = refl

run_test_lem_example :
    (Every (λ s. good_run.run s ≡ 0) two_steps
      × ((run_test (codes "pool") good_run two_steps).0 ≡ true
          ↔ (contains (codes "PASS") good_run.log ≡ true)
            × (contains (codes "FAIL") good_run.log ≡ false)
            × (contains (codes "Fatal") good_run.log ≡ false))
      × IsMessage (splitlines good_run.log) (run_test (codes "pool") good_run two_steps).1)
    ⊎ ((s : Step) × (pre post : List Step) × (two_steps ≡ pre ++ s ∷ post)
        × Every (λ t. good_run.run t ≡ 0) pre
        × ((good_run.run s == 0) ≡ false)
        × (run_test (codes "pool") good_run two_steps ≡ (false, failed_message (codes "pool") s)))
run_test_lem_example = run_test_lem (codes "pool") good_run two_steps

main_status_lem_example :
    (main_status (tests []) (λ n. true) (codes "pool" ∷ codes "chip" ∷ []) ≡ 0)
    ↔ Every
        (IsPassing (tests []) (λ n. true))
        (chosen (tests []) (codes "pool" ∷ codes "chip" ∷ []))
main_status_lem_example =
    main_status_lem (tests []) (λ n. true) (codes "pool" ∷ codes "chip" ∷ []) refl
