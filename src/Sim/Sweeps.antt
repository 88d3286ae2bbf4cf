-- ===== src/Sim/Sweeps.antt =====
-- The rows that sim/app_sweep.py, sim/lane_sweep.py and sim/amo_sweep.py collect from the logs of the
-- simulator, and their totals. The runs themselves, a result and a log each, are arguments.
use simtix.Base.{
  ℕ, zero, suc, ◌+◌, List, [], ◌∷◌, ◌++◌, map, Option, none, some, Bool, false, ◌||◌, leb, ◌==◌,
  if◌then◌else◌,
}
use simtix.Base.Text.{Text, codes, starts_with, split, strip, parse_int, str}
use simtix.Sim.Rows.{Key, Rows, find, put, put_all, values}

abbrev pub take : {A : Type 0} → ℕ → List A → List A
take zero xs = []
take (suc n) [] = []
take (suc n) (x ∷ xs) = x ∷ take n xs

abbrev pub tail : {A : Type 0} → List A → List A
tail [] = []
tail (x ∷ xs) = xs

-- One line of a log: `f = line.strip().split(',')[1:]`, the key `tuple(f[:n])`, the row `head + f`.
abbrev pub log_entry : ℕ → List Text → Text → Key × List Text
log_entry n head line = let f = tail (split b',' (strip line)) in (take n f, head ++ f)

-- The lines that start with the tag.
unfoldable pub log_entries : Text → ℕ → List Text → List Text → List (Key × List Text)
log_entries tag n head [] = []
log_entries tag n head (line ∷ log) =
    let rest = log_entries tag n head log in
    if starts_with tag line then log_entry n head line ∷ rest else rest

-- `list(rows.values())`; a missing log gives no rows.
unfoldable pub collect : Text → ℕ → List Text → Option (List Text) → List (List Text)
unfolding log_entries
collect tag n head none = []
collect tag n head (some log) = values (put_all (log_entries tag n head log) [])

-- What `run_test` returned, and the log behind it.
pub record RunLog : Type 0 where
  pub ok : Bool
  pub log : Option (List Text)

-- The rows of all runs, and `fails`.
unfoldable gather_runs : Text → ℕ → List (List Text × RunLog) → List (List Text) × ℕ
unfolding collect
gather_runs tag n [] = ([], 0)
gather_runs tag n (r ∷ runs) =
    let (rows, fails) = gather_runs tag n runs in
    (collect tag n r.0 r.1.log ++ rows, (if r.1.ok then 0 else 1) + fails)

abbrev pub count_or_zero : Option ℕ → ℕ
count_or_zero none = 0
count_or_zero (some n) = n

-- `tot[key] = tot.get(key, 0) + int(cyc)` for the key and the cycles of a row.
abbrev pub add_total : Key → ℕ → Rows ℕ → Rows ℕ
add_total k n tot = put k (count_or_zero (find k tot) + n) tot

-- `for v, case, _, _, cyc, *_ in rows`: `none` is the ValueError of a row with fewer fields or of a
-- cycle count that is no number.
abbrev pub row_cycles : List Text → Option (Key × ℕ)
row_cycles (v ∷ case ∷ _ ∷ _ ∷ cyc ∷ _) = elim (parse_int cyc) [
  | none ↦ none
  | some n ↦ some (v ∷ case ∷ [], n)
]
row_cycles _ = none

unfoldable pub totals : List (List Text) → Rows ℕ → Option (Rows ℕ)
totals [] tot = some tot
totals (row ∷ rows) tot = elim (row_cycles row) [
  | none ↦ none
  | some (k, n) ↦ totals rows (add_total k n tot)
]

abbrev csv_header : List Text
csv_header =
    map codes
      ("case" ∷ "launch" ∷ "threads" ∷ "cycles" ∷ "l1_hits" ∷ "l1_misses" ∷ "insns" ∷ "active" ∷ [])

-- The written rows, the totals and the exit status.
pub record Sweep : Type 0 where
  pub csv : List (List Text)
  pub tot : Rows ℕ
  pub status : ℕ

-- main of app_sweep: the runs are those of VARIANTS, each with its name.
unfoldable app_sweep : List (Text × RunLog) → Option Sweep
unfolding gather_runs totals
app_sweep runs =
    let (rows, fails) = gather_runs (codes "APPCSV,") 2 (map (λ r. (r.0 ∷ [], r.1)) runs) in
    elim (totals rows []) [
      | none ↦ none
      | some tot ↦ some (record {
        csv = (codes "variant" ∷ csv_header) ∷ rows;
        tot = tot;
        status = if fails == 0 then 0 else 1;
      })
    ]

-- The lane count in front of a row, or `none` for its ValueError (or IndexError).
abbrev pub row_lanes : List Text → Option ℕ
row_lanes [] = none
row_lanes (l ∷ row) = parse_int l

abbrev pub among : ℕ → List ℕ → Bool
among n [] = false
among n (m ∷ ms) = (n == m) || among n ms

-- `[r for r in old if int(r[0]) not in args.lanes]`, each row with its lane count.
unfoldable pub kept_rows : List ℕ → List (List Text) → Option (List (ℕ × List Text))
kept_rows lanes [] = some []
kept_rows lanes (r ∷ old) = elim (row_lanes r) [
  | none ↦ none
  | some l ↦ elim (kept_rows lanes old) [
    | none ↦ none
    | some rest ↦ some (if among l lanes then rest else (l, r) ∷ rest)
  ]
]

-- `sorted(..., key=lambda r: int(r[0]))`: stable.
unfoldable pub insert_row : ℕ × List Text → List (ℕ × List Text) → List (ℕ × List Text)
insert_row r [] = r ∷ []
insert_row r (q ∷ rows) =
    let later = q ∷ insert_row r rows in if leb r.0 q.0 then r ∷ q ∷ rows else later

unfoldable pub sort_rows : List (ℕ × List Text) → List (ℕ × List Text)
unfolding insert_row
sort_rows [] = []
sort_rows (r ∷ rows) = insert_row r (sort_rows rows)

-- The rows of each lane count that was run, with `str` of it in front.
unfoldable pub lane_rows : List (ℕ × RunLog) → List (ℕ × List Text)
unfolding collect
lane_rows [] = []
lane_rows (r ∷ runs) =
    map (λ row. (r.0, row)) (collect (codes "APPCSV,") 2 (str r.0 ∷ []) r.1.log) ++ lane_rows runs

-- The old and the new rows of lane_sweep; `old` is the file's rows behind its header, if there is one.
unfoldable pub merged_rows : List (ℕ × RunLog) → List (List Text) → Option (List (ℕ × List Text))
unfolding kept_rows sort_rows lane_rows
merged_rows runs old = elim (kept_rows (map (λ r. r.0) runs) old) [
  | none ↦ none
  | some kept ↦ some (sort_rows (kept ++ lane_rows runs))
]

unfoldable count_fails : List RunLog → ℕ
count_fails [] = 0
count_fails (r ∷ runs) = (if r.ok then 0 else 1) + count_fails runs

-- main of lane_sweep.
unfoldable lane_sweep : List (ℕ × RunLog) → List (List Text) → Option Sweep
unfolding merged_rows totals count_fails
lane_sweep runs old = elim (merged_rows runs old) [
  | none ↦ none
  | some rows ↦ elim (totals (map (λ r. str r.0 ∷ tail r.1) rows) []) [
    | none ↦ none
    | some tot ↦ some (record {
      csv = (codes "lanes" ∷ csv_header) ∷ map (λ r. r.1) rows;
      tot = tot;
      status = if count_fails (map (λ r. r.1) runs) == 0 then 0 else 1;
    })
  ]
]

-- The rows of amo_sweep: the runs are the pairs of a configuration and a variant.
unfoldable amo_sweep : List ((Text × Text) × RunLog) → List (List Text) × ℕ
unfolding gather_runs
amo_sweep runs =
    let (rows, fails) =
      gather_runs (codes "SYNCCSV,") 3 (map (λ r. (r.0.0 ∷ r.0.1 ∷ [], r.1)) runs) in
    (
      map codes (
            "config" ∷ "variant" ∷ "kernel" ∷ "N" ∷ "block_log2" ∷ "cycles" ∷ "gmem_txns"
            ∷ "scratch_txns" ∷ [])
          ∷ rows,
      if fails == 0 then 0 else 1,
    )
