-- ===== src/Sim/Xsim.antt =====
-- The regression of sim/run_xsim.py: the steps of a test, its pass rule, and the exit status. The tools,
-- the file system and the paths are arguments of the definitions.
pub mod Table
use simtix.Base.{
  ℕ, zero, suc, ◌+◌, List, [], ◌∷◌, ◌++◌, map, Option, none, some, Bool, true, false, ◌&&◌, ◌||◌,
  ◌==◌, if◌then◌else◌,
}
use simtix.Base.Text.{Text, codes, text_eq, contains, split, strip, starts_with}
use simtix.Sim.Xsim.Table.{TestSpec}

-- A tag, the command, and the option file that is written for it.
pub record Step : Type 0 where
  pub tag : Text
  pub cmd : List Text

-- The surroundings: the tool's path, a path under the root, the directories of INCDIRS.
pub record Tools : Type 0 where
  pub tool : Text → Text
  pub at_root : Text → Text
  pub incdirs : List Text

-- `opts(fname, lines)`, without the file.
abbrev opts : Text → List Text → List Text
opts fname [] = []
opts fname (l ∷ lines) = codes "-f" ∷ fname ∷ []

abbrev include : List Text → List Text
include [] = []
include (p ∷ ps) = codes "-i" ∷ p ∷ include ps

-- `steps` of run_test, in order.
unfoldable steps_of : Tools → TestSpec → List Text → List Text → List Step
steps_of env t defines plusargs =
    let dopt = opts (codes "defines.opt") defines in
    let xvlog = env.tool (codes "xvlog") in
    let gopt : List Text = elim (t.generics) [
      | none ↦ []
      | some g ↦ codes "-f" ∷ codes "generics.opt" ∷ []
    ] in
    let elab =
      env.tool (codes "xelab") ∷ map codes ("-debug" ∷ "off" ∷ [])
      ++ t.top ∷ map codes ("-s" ∷ "sim" ∷ [])
      ++ gopt in
    let v_steps : List Step = elim (t.v) [
      | [] ↦ []
      | f ∷ fs ↦
          record { tag = codes "xvlog_v"; cmd = xvlog ∷ dopt ++ map (λ p. env.at_root p) (f ∷ fs) }
          ∷ []
    ] in
    let sv_step : Step = record {
      tag = codes "xvlog_sv";
      cmd =
          xvlog ∷ codes "-sv" ∷ dopt
          ++ include (map (λ p. env.at_root p) env.incdirs)
          ++ map (λ p. env.at_root p) t.sv;
    } in
    let dpi_steps : List Step =
      if t.dpi
      then record {
        tag = codes "xsc";
        cmd = env.tool (codes "xsc") ∷ env.at_root (codes "tests/fpu_ref.c") ∷ [];
      }
        ∷ []
      else [] in
    let elab_dpi = if t.dpi then elab ++ map codes ("-sv_lib" ∷ "dpi" ∷ []) else elab in
    v_steps
    ++ sv_step ∷ dpi_steps
    ++ record { tag = codes "xelab"; cmd = elab_dpi }
      ∷ record {
        tag = codes "xsim";
        cmd =
            env.tool (codes "xsim") ∷ map codes ("sim" ∷ "-R" ∷ [])
            ++ opts (codes "plusargs.opt") plusargs;
      }
      ∷ []

-- The return code of each step, and the log that the simulator leaves.
pub record Machine : Type 0 where
  pub run : Step → ℕ
  pub log : Text

-- The first step that fails; the ones behind it do not run.
unfoldable pub failing : (Step → ℕ) → List Step → Option Step
failing run [] = none
failing run (s ∷ steps) = let rest = failing run steps in if run s == 0 then rest else some s

-- The pass rule for the log. The docstring of the file names PASS and FAIL only.
abbrev pub log_passes : Text → Bool
log_passes out =
    contains (codes "PASS") out
    && (if contains (codes "FAIL") out then false else true)
    && (if contains (codes "Fatal") out then false else true)

-- A code point that ends a line for `str.splitlines`. The file is opened as text, so no carriage return
-- is left in it.
abbrev is_break : ℕ → Bool
is_break c =
    (10 == c)
    || (11 == c)
    || (12 == c)
    || (13 == c)
    || (28 == c)
    || (29 == c)
    || (30 == c)
    || (133 == c)
    || (8232 == c)
    || (8233 == c)

abbrev add_char : ℕ → List Text → List Text
add_char c [] = (c ∷ []) ∷ []
add_char c (l ∷ lines) = (c ∷ l) ∷ lines

-- `out.splitlines()`
unfoldable pub splitlines : Text → List Text
splitlines [] = []
splitlines (c ∷ s) = let lines = splitlines s in if is_break c then [] ∷ lines else add_char c lines

-- The line has PASS or FAIL.
abbrev pub has_verdict : Text → Bool
has_verdict l = contains (codes "PASS") l || contains (codes "FAIL") l

-- The last line with PASS or FAIL, stripped.
abbrev pub last_verdict : Text → List Text → Text
last_verdict so_far [] = so_far
last_verdict so_far (l ∷ lines) = last_verdict (if has_verdict l then strip l else so_far) lines

-- The message for a failed step, with the path of its log.
abbrev pub failed_message : Text → Step → Text
failed_message name s =
    s.tag ++ codes " failed (see build_xsim/" ++ name ++ codes "/" ++ s.tag ++ codes ".log)"

-- What run_test returns for a test's name: whether the test passed, and a message.
unfoldable pub run_test : Text → Machine → List Step → Bool × Text
unfolding failing splitlines
run_test name m steps = elim (failing m.run steps) [
  | some s ↦ (false, failed_message name s)
  | none ↦ (log_passes m.log, last_verdict (codes "no PASS/FAIL line") (splitlines m.log))
]

abbrev pub find_test : Text → List (Text × TestSpec) → Option TestSpec
find_test name [] = none
find_test name (e ∷ tests) = if text_eq name e.0 then some e.1 else find_test name tests

-- `[n for n in names if n not in TESTS]`
abbrev pub unknown : List (Text × TestSpec) → List Text → List Text
unknown tests [] = []
unknown tests (n ∷ names) =
    let rest = unknown tests names in elim (find_test n tests) [ none ↦ n ∷ rest | some t ↦ rest ]

-- `[a for a in argv if not a.startswith('-')]`
abbrev test_names : List Text → List Text
test_names [] = []
test_names (a ∷ argv) =
    let rest = test_names argv in if starts_with (codes "-") a then rest else a ∷ rest

abbrev pub has_list : List Text → Bool
has_list [] = false
has_list (a ∷ argv) = text_eq a (codes "--list") || has_list argv

-- `fails`, with the result of each test.
unfoldable pub fails_of : (Text → Bool) → List Text → ℕ
fails_of passes [] = 0
fails_of passes (n ∷ names) = (if passes n then 0 else 1) + fails_of passes names

abbrev pub chosen : List (Text × TestSpec) → List Text → List Text
chosen tests argv = elim (test_names argv) [ [] ↦ map (λ e. e.0) tests | n ∷ names ↦ n ∷ names ]

-- 2 for an unknown name, else whether a test failed.
abbrev pub status_of : List Text → ℕ → ℕ
status_of [] fails = if fails == 0 then 0 else 1
status_of (n ∷ bad) fails = 2

-- The exit status of main; `passes` is what run_test gives for a name.
unfoldable pub main_status : List (Text × TestSpec) → (Text → Bool) → List Text → ℕ
unfolding fails_of
main_status tests passes argv =
    let names = chosen tests argv in
    if has_list argv then 0 else status_of (unknown tests names) (fails_of passes names)
