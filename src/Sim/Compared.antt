-- ===== src/Sim/Compared.antt =====
-- How sim/vortex_compare.py ends: with the table, or with a run whose launches differ.
use simtix.Base.{
  ◌+◌, List, [], ◌∷◌, Option, none, some, inl, inr, ◌⊎◌, ◌≡◌, refl, ap, ◌∙◌, take, ◌++◌,
}
use simtix.Base.Text.{Text, codes}
use simtix.Sim.Rows.{
  Key, Rows, IsDict, find, keys, last_of, put_all-IsDict, find-put_all, put_all-cons,
}
use simtix.Sim.Compare.{
  Counts, not_in, Machine, machine, machines_of, compare_machines, TableRow, Outcome, differ,
  key_error, table, group_cases, launch_counts, total, total_counts, launch_table, case_table,
  first_difference, compare,
}
use simtix.Sim.Launches.{
  CasesIn, Every-map, keys-IsIn, not_in_nil, not_in_cons, group_cases-CasesIn, IsIn, Every,
}

-- Sums and rows are there where the launches are.
abbrev Returns : {A : Type 0} → Option A → Type 0
Returns {A} o = (a : A) × (o ≡ some a)

total-Returns :
    (rows : Rows Counts) (case : Text) (ls : List Text)
    → Every (λ l. IsIn rows (case ∷ l ∷ [])) ls
    → Returns (total rows case ls)
unfolding total
total-Returns rows case [] h = ((0, 0), refl)
total-Returns rows case (l ∷ ls) h =
    let (v, e) = h.0 in
    let (t, e') = total-Returns rows case ls h.1 in ((v.0 + t.0, v.1 + t.1), rw (e, e', total) refl)

total_counts-Returns :
    (ms : List Machine) (case : Text) (ls : List Text)
    → Every (λ m. Every (λ l. IsIn m.1 (case ∷ l ∷ [])) ls) ms
    → Returns (total_counts ms case ls)
unfolding total_counts
total_counts-Returns [] case ls h = ([], refl)
total_counts-Returns (m ∷ ms) case ls h =
    let (t, e) = total-Returns m.1 case ls h.0 in
    let (ts, e') = total_counts-Returns ms case ls h.1 in
    (t.0 ∷ t.1 ∷ ts, rw (e, e', total_counts) refl)

launch_counts-Returns :
    (ms : List Machine) (k : Key) → Every (λ m. IsIn m.1 k) ms → Returns (launch_counts ms k)
unfolding launch_counts
launch_counts-Returns [] k h = ([], refl)
launch_counts-Returns (m ∷ ms) k h =
    let (v, e) = h.0 in
    let (vs, e') = launch_counts-Returns ms k h.1 in
    (v.0 ∷ v.1 ∷ vs, rw (e, e', launch_counts) refl)

launch_table-Returns :
    (ms : List Machine) (case : Text) (ls : List Text) (after : List TableRow)
    → Every (λ m. Every (λ l. IsIn m.1 (case ∷ l ∷ [])) ls) ms
    → Returns (launch_table ms case ls after)
unfolding launch_table
launch_table-Returns ms case [] after h = (after, refl)
launch_table-Returns ms case (l ∷ ls) after h =
    let (vs, e) = launch_counts-Returns ms (case ∷ l ∷ []) (Every-map _ _ ms (λ m g. g.0) h) in
    let (rest, e') = launch_table-Returns ms case ls after (Every-map _ _ ms (λ m g. g.1) h) in
    (record { case = case; launch = l; counts = vs } ∷ rest, rw (e, e', launch_table) refl)

case_table-Returns :
    (ms : List Machine) (cases : List (Text × List Text))
    → Every (λ m. CasesIn m.1 cases) ms
    → Returns (case_table ms cases)
unfolding case_table
case_table-Returns ms [] h = ([], refl)
case_table-Returns ms (e ∷ cases) h =
    let (rest, er) = case_table-Returns ms cases (Every-map _ _ ms (λ m g. g.1) h) in
    let here = Every-map _ _ ms (λ m g. g.0) h in
    let (ts, et) = total_counts-Returns ms e.0 e.1 here in
    let (rows, ew) =
      launch_table-Returns ms e.0 e.1
        (record { case = e.0; launch = codes "total"; counts = ts } ∷ rest) here in
    (rows, rw (er, et, case_table) ew)

list-cases : {A : Type 0} (xs : List A) → (xs ≡ []) ⊎ ((x : A) × (rest : List A) × (xs ≡ x ∷ rest))
list-cases [] = inl refl
list-cases (x ∷ xs) = inr (x, xs, refl)

-- The run has counts for the launches of SIMTiX, and for no others.
abbrev pub Agrees : Rows Counts → Machine → Type 0
Agrees simtix m = Every (IsIn m.1) (keys simtix) × Every (IsIn simtix) (keys m.1)

-- A launch that only one of the two has.
abbrev OneSided : Rows Counts → Machine → Type 0
OneSided simtix m =
    (k : Key) × ((IsIn simtix k × (find k m.1 ≡ none)) ⊎ (IsIn m.1 k × (find k simtix ≡ none)))

abbrev pub difference : Rows Counts → Machine → Outcome
difference simtix m =
    differ m.0 (take 3 (not_in (keys simtix) m.1)) (take 3 (not_in (keys m.1) simtix))

-- `m` is the first of the runs that does not have just the launches of SIMTiX.
pub record IsFirst (simtix : Rows Counts) (runs : List Machine) (m : Machine) : Type 0 where
  pub before : List Machine
  pub after : List Machine
  pub place : runs ≡ before ++ m ∷ after
  pub agree : Every (Agrees simtix) before
  pub one_sided : OneSided simtix m

first_difference_lem :
    (simtix : Rows Counts) (runs : List Machine)
    → (Every (Agrees simtix) runs × (first_difference simtix runs ≡ none))
      ⊎ ((m : Machine) × IsFirst simtix runs m
          × (first_difference simtix runs ≡ some (difference simtix m)))
unfolding first_difference
first_difference_lem simtix [] = inl (tt, refl)
first_difference_lem simtix (m ∷ ms) = elim (list-cases (not_in (keys simtix) m.1)) [
  | inr (k, rest, e) ↦ inr (
    m,
    here (k, inl (not_in_cons simtix m.1 (keys simtix) k rest (keys-IsIn simtix) e)),
    rw (e, first_difference) refl,
  )
  | inl none_missing ↦ elim (list-cases (not_in (keys m.1) simtix)) [
    | inr (k, rest, e) ↦ inr (
      m,
      here (k, inr (not_in_cons m.1 simtix (keys m.1) k rest (keys-IsIn m.1) e)),
      rw (none_missing, e, first_difference) refl,
    )
    | inl none_extra ↦
        let agrees : Agrees simtix m =
          (not_in_nil (keys simtix) m.1 none_missing, not_in_nil (keys m.1) simtix none_extra) in
        elim (first_difference_lem simtix ms) [
          | inl same ↦
              inl ((agrees, same.0), rw (none_missing, none_extra, first_difference) same.1)
          | inr (n, first, e) ↦
              inr (n, later agrees first, rw (none_missing, none_extra, first_difference) e)
        ]
  ]
]
  where
    here : OneSided simtix m → IsFirst simtix (m ∷ ms) m
    here o = record { before = []; after = ms; place = refl; agree = tt; one_sided = o }

    later : {n : Machine} → Agrees simtix m → IsFirst simtix ms n → IsFirst simtix (m ∷ ms) n
    later a f = record {
      before = m ∷ f.before;
      after = f.after;
      place = ap (λ l. m ∷ l) f.place;
      agree = (a, f.agree);
      one_sided = f.one_sided;
    }

-- The dict of machines: the reference, then the other names, each with the rows that were read last
-- for it.
pub record ReadsLast (rows : Rows Counts) (runs : List Machine) (simtix : Rows Counts)
    (others : List Machine) : Type 0 where
  pub entries : machines_of rows runs ≡ machine (codes "simtix") simtix ∷ others
  pub distinct : IsDict (machines_of rows runs)
  pub latest :
      (name : Key)
      → find name (machines_of rows runs) ≡ last_of name (machine (codes "simtix") rows ∷ runs) none

machines_of-ReadsLast :
    (rows : Rows Counts) (runs : List Machine)
    → (simtix : Rows Counts) × (others : List Machine) × ReadsLast rows runs simtix others
unfolding machines_of
machines_of-ReadsLast rows runs =
    let start = machine (codes "simtix") rows in
    let (simtix, others, e) = put_all-cons runs start [] in
    (
      simtix,
      others,
      record {
        entries = e;
        distinct = put_all-IsDict runs (start ∷ []) (refl, tt);
        latest = λ name. find-put_all name runs (start ∷ []);
      },
    )

-- How main goes on, where the dict of machines is known.
compare-entries :
    (rows : Rows Counts) (runs : List Machine) (simtix : Rows Counts) (others : List Machine)
    → machines_of rows runs ≡ machine (codes "simtix") simtix ∷ others
    → compare rows runs ≡ elim (first_difference simtix others) as (λ _. Outcome) [
      | some o ↦ o
      | none ↦
          elim (case_table
              (machine (codes "simtix") simtix ∷ others)
              (group_cases (keys simtix) []))
            as (λ _. Outcome) [ none ↦ key_error | some t ↦ table t ]
    ]
unfolding compare compare_machines
compare-entries rows runs simtix others e = ap compare_machines e

-- For any rows of SIMTiX and any runs with names: the runs stand in a dict behind the reference, each
-- name once and with the rows last read for it, those of a run named simtix as the reference. Either
-- every other run has exactly the launches of the reference, and the table is written, without a
-- KeyError; or there is a first run that differs from it in a launch, and the program stops with that
-- run's name, and with the first three, at most, of its missing and of its extra launches.
pub compare_lem :
    (rows : Rows Counts) (runs : List Machine)
    → (simtix : Rows Counts) × (others : List Machine) × ReadsLast rows runs simtix others
      × ((Every (Agrees simtix) others × (t : List TableRow) × (compare rows runs ≡ table t))
          ⊎ ((m : Machine) × IsFirst simtix others m × (compare rows runs ≡ difference simtix m)))
compare_lem rows runs =
    let (simtix, others, ms) = machines_of-ReadsLast rows runs in
    let start = compare-entries rows runs simtix others ms.entries in
    (
      simtix,
      others,
      ms,
      elim (first_difference_lem simtix others) [
        | inr (m, first, e) ↦ inr (m, first, start ∙ rw e refl)
        | inl same ↦
            let own = machine (codes "simtix") simtix in
            let cases = group_cases (keys simtix) [] in
            let grouped : Every (λ m. CasesIn m.1 cases) (own ∷ others) = (
              group_cases-CasesIn simtix (keys simtix) [] (keys-IsIn simtix) tt,
              Every-map _ _ others (λ m a. group_cases-CasesIn m.1 (keys simtix) [] a.0 tt) same.0,
            ) in
            let (t, e) = case_table-Returns (own ∷ others) cases grouped in
            inl (same.0, t, start ∙ rw (same.1, e) refl)
      ],
    )
