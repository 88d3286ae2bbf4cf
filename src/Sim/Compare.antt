-- ===== src/Sim/Compare.antt =====
-- sim/vortex_compare.py: the rows of both machines, the check that their launches agree, and the table
-- that is written. The files are lists of lines; those of the CSV are split into fields.
use simtix.Base.{
  ℕ, suc, ◌+◌, List, [], ◌∷◌, ◌++◌, Option, none, some, Bool, true, false, ◌&&◌, if◌then◌else◌,
  get_elem?, take, drop,
}
use simtix.Base.Text.{Text, codes, text_eq, split, strip, parse_int}
use simtix.Sim.Rows.{Key, Rows, find, put, keys, put_all}

-- (cycles, insns)
abbrev pub Counts : Type 0
Counts = ℕ × ℕ

-- The column of a header's name for csv.DictReader; `none` is the KeyError. The last one of a name
-- counts.
abbrev column : Text → List Text → Option ℕ
column name [] = none
column name (h ∷ header) = elim (column name header) [
  | some i ↦ some (suc i)
  | none ↦ if text_eq name h then some 0 else none
]

-- `int(r.get('insns') or 0)`
abbrev int_or_zero : Option Text → Option ℕ
int_or_zero none = some 0
int_or_zero (some []) = some 0
int_or_zero (some (c ∷ s)) = parse_int (c ∷ s)

abbrev int_of : Option Text → Option ℕ
int_of none = none
int_of (some s) = parse_int s

abbrev field : Option ℕ → List Text → Option Text
field none row = none
field (some i) row = get_elem? row i

-- One row of the variant; a missing value counts as an error where it is used.
abbrev simtix_row : List Text → Text → List Text → Rows Counts → Option (Rows Counts)
simtix_row header variant row rows = elim (column (codes "variant") header) [
  | none ↦ none
  | some v ↦ elim (get_elem? row v) [
    | none ↦ some rows
    | some x ↦ elim (text_eq x variant) [
      | false ↦ some rows
      | true ↦ elim (field (column (codes "case") header) row) [
        | none ↦ none
        | some case ↦ elim (field (column (codes "launch") header) row) [
          | none ↦ none
          | some launch ↦ elim (int_of (field (column (codes "cycles") header) row)) [
            | none ↦ none
            | some c ↦ elim (int_or_zero (field (column (codes "insns") header) row)) [
              | none ↦ none
              | some i ↦ some (put (case ∷ launch ∷ []) (c, i) rows)
            ]
          ]
        ]
      ]
    ]
  ]
]

unfoldable read_simtix : List Text → Text → List (List Text) → Rows Counts → Option (Rows Counts)
read_simtix header variant [] rows = some rows
read_simtix header variant (row ∷ file) rows = elim (simtix_row header variant row rows) [
  | none ↦ none
  | some rows' ↦ read_simtix header variant file rows'
]

-- The fields of a line that read_vortex takes.
abbrev vortex_row : List Text → Rows Counts → Option (Rows Counts)
vortex_row (p0 ∷ p1 ∷ p2 ∷ p3 ∷ p4 ∷ p5 ∷ rest) rows =
    if text_eq p0 (codes "APPCSV")
      && text_eq p1 (codes "vortex")
      && (if text_eq p3 (codes "total") then false else true)
    then elim (parse_int p5) [
      | none ↦ none
      | some c ↦ elim rest [
        | [] ↦ some (put (p2 ∷ p3 ∷ []) (c, 0) rows)
        | p6 ∷ _ ↦ elim (parse_int p6) [
          | none ↦ none
          | some i ↦ some (put (p2 ∷ p3 ∷ []) (c, i) rows)
        ]
      ]
    ]
    else some rows
vortex_row _ rows = some rows

unfoldable read_vortex : List Text → Rows Counts → Option (Rows Counts)
read_vortex [] rows = some rows
read_vortex (line ∷ file) rows = elim (vortex_row (split b',' (strip line)) rows) [
  | none ↦ none
  | some rows' ↦ read_vortex file rows'
]

abbrev pub is_in : Key → Rows Counts → Bool
is_in k rows = elim (find k rows) [ none ↦ false | some v ↦ true ]

-- `[k for k in ks if k not in rows]`
abbrev pub not_in : List Key → Rows Counts → List Key
not_in [] rows = []
not_in (k ∷ ks) rows = let rest = not_in ks rows in if is_in k rows then rest else k ∷ rest

abbrev is_empty : List Key → Bool
is_empty [] = true
is_empty (k ∷ ks) = false

-- An entry of `machines`, whose keys are names: a name, and the rows read for it.
abbrev pub Machine : Type 0
Machine = Key × Rows Counts

abbrev pub machine : Text → Rows Counts → Machine
machine name rows = (name ∷ [], rows)

-- A row of the table: a case, a launch or `total`, and the counts of each machine.
pub record TableRow : Type 0 where
  pub case : Text
  pub launch : Text
  pub counts : List ℕ

-- What main ends in: a message that launches differ, with the name of the run and the missing and
-- extra launches that it lists; a KeyError; or the table.
pub data Outcome : Type 0 where
  differ : Key → List Key → List Key → Outcome
  key_error : Outcome
  table : List TableRow → Outcome

-- `cases.setdefault(case, []).append(launch)`
abbrev pub add_case : Text → Text → List (Text × List Text) → List (Text × List Text)
add_case case launch [] = (case, launch ∷ []) ∷ []
add_case case launch (e ∷ cases) =
    let rest = add_case case launch cases in
    if text_eq case e.0 then (e.0, e.1 ++ launch ∷ []) ∷ cases else e ∷ rest

-- The loop over the keys of SIMTiX, which are pairs.
unfoldable pub group_cases : List Key → List (Text × List Text) → List (Text × List Text)
group_cases [] cases = cases
group_cases ((case ∷ launch ∷ []) ∷ ks) cases = group_cases ks (add_case case launch cases)
group_cases (k ∷ ks) cases = group_cases ks cases

-- The counts of one launch, for every machine.
unfoldable pub launch_counts : List Machine → Key → Option (List ℕ)
launch_counts [] k = some []
launch_counts (m ∷ ms) k = elim (find k m.1) [
  | none ↦ none
  | some v ↦ elim (launch_counts ms k) [ none ↦ none | some rest ↦ some (v.0 ∷ v.1 ∷ rest) ]
]

-- `total`: the sums over the launches of a case.
unfoldable pub total : Rows Counts → Text → List Text → Option Counts
total rows case [] = some (0, 0)
total rows case (l ∷ ls) = elim (find (case ∷ l ∷ []) rows) [
  | none ↦ none
  | some v ↦ elim (total rows case ls) [ none ↦ none | some t ↦ some (v.0 + t.0, v.1 + t.1) ]
]

unfoldable pub total_counts : List Machine → Text → List Text → Option (List ℕ)
unfolding total
total_counts [] case ls = some []
total_counts (m ∷ ms) case ls = elim (total m.1 case ls) [
  | none ↦ none
  | some t ↦ elim (total_counts ms case ls) [ none ↦ none | some rest ↦ some (t.0 ∷ t.1 ∷ rest) ]
]

-- The rows of the launches of a case, before its total row.
unfoldable pub launch_table :
    List Machine → Text → List Text → List TableRow → Option (List TableRow)
unfolding launch_counts
launch_table ms case [] after = some after
launch_table ms case (l ∷ ls) after = elim (launch_counts ms (case ∷ l ∷ [])) [
  | none ↦ none
  | some vs ↦ elim (launch_table ms case ls after) [
    | none ↦ none
    | some rest ↦ some (record { case = case; launch = l; counts = vs } ∷ rest)
  ]
]

unfoldable pub case_table : List Machine → List (Text × List Text) → Option (List TableRow)
unfolding launch_table total_counts
case_table ms [] = some []
case_table ms (e ∷ cases) = elim (case_table ms cases) [
  | none ↦ none
  | some rest ↦ elim (total_counts ms e.0 e.1) [
    | none ↦ none
    | some ts ↦
        launch_table ms e.0 e.1 (record { case = e.0; launch = codes "total"; counts = ts } ∷ rest)
  ]
]

-- The loop over the runs that compares their launches with those of SIMTiX. The message lists at most
-- three missing and three extra launches.
unfoldable pub first_difference : Rows Counts → List Machine → Option Outcome
first_difference simtix [] = none
first_difference simtix (m ∷ ms) =
    let rest = first_difference simtix ms in
    let missing = not_in (keys simtix) m.1 in
    let extra = not_in (keys m.1) simtix in
    if is_empty missing && is_empty extra
    then rest
    else some (differ m.0 (take 3 missing) (take 3 extra))

-- `machines` after the loop over the command line: the names and the rows of the runs, in their order.
unfoldable pub machines_of : Rows Counts → List Machine → List Machine
machines_of simtix runs = put_all runs (machine (codes "simtix") simtix ∷ [])

-- main, from the dict of machines on; the reference is `machines['simtix']`, and the loop skips the
-- first entry.
unfoldable pub compare_machines : List Machine → Outcome
unfolding first_difference group_cases case_table
compare_machines machines = elim (find (codes "simtix" ∷ []) machines) [
  | none ↦ key_error
  | some simtix ↦ elim (first_difference simtix (drop 1 machines)) [
    | some o ↦ o
    | none ↦ elim (case_table machines (group_cases (keys simtix) [])) [
      | none ↦ key_error
      | some t ↦ table t
    ]
  ]
]

-- main, from the rows that are read on.
unfoldable pub compare : Rows Counts → List Machine → Outcome
unfolding machines_of compare_machines
compare rows runs = compare_machines (machines_of rows runs)
