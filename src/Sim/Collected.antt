-- ===== src/Sim/Collected.antt =====
-- What the sweeps of sim/ make of the simulator's logs: one row per launch, and the totals.
use simtix.Base.{
  ℕ, ◌+◌, List, [], ◌∷◌, ◌++◌, Option, none, some, inl, inr, Bool-cases, ◌≡◌, refl, sym, ap, ◌∙◌,
  arith, if◌then◌else◌,
}
use mathlib.Core.Option.{some-injective}
use simtix.Base.Text.{Text, texts_eq, texts_eq-eq, starts_with}
use simtix.Sim.Rows.{
  Key, Rows, find, put_all, values, find-put, put_all-append, put_all_twice, put_all-IsDict,
}
use simtix.Sim.Sweeps.{
  log_entry, log_entries, collect, count_or_zero, add_total, row_cycles, totals,
}

log_entries-append :
    (tag : Text) (n : ℕ) (head : List Text) (xs ys : List Text)
    → log_entries tag n head (xs ++ ys) ≡ log_entries tag n head xs ++ log_entries tag n head ys
unfolding log_entries
log_entries-append tag n head [] ys = refl
log_entries-append tag n head (x ∷ xs) ys = elim (Bool-cases (starts_with tag x)) [
  | inl tagged ↦ rw tagged (ap (λ l. log_entry n head x ∷ l) (log_entries-append tag n head xs ys))
  | inr other ↦ rw other (log_entries-append tag n head xs ys)
]

-- For every tag, key length, head of a row and log: a log that repeats its last lines, however many,
-- gives the same rows in the same order as without the repetition.
pub collect_repeated :
    (tag : Text) (n : ℕ) (head : List Text) (log last : List Text)
    → collect tag n head (some (log ++ last ++ last)) ≡ collect tag n head (some (log ++ last))
unfolding collect
collect_repeated tag n head log last =
    let es = log_entries tag n head log in
    let fs = log_entries tag n head last in
    let once : log_entries tag n head (log ++ last) ≡ es ++ fs =
      log_entries-append tag n head log last in
    let split : log_entries tag n head (log ++ last ++ last) ≡ es ++ fs ++ fs =
      log_entries-append tag n head (log ++ last) last ∙ ap (λ l. l ++ fs) once in
    let d = put_all es [] in
    let first : put_all (es ++ fs) [] ≡ put_all fs d = put_all-append es fs [] in
    let again : put_all (es ++ fs ++ fs) [] ≡ put_all (es ++ fs) [] =
      put_all-append (es ++ fs) fs []
      ∙ ap (put_all fs) first
      ∙ put_all_twice fs d (put_all-IsDict es [] tt)
      ∙ sym first in
    ap (λ l. values (put_all l [])) split
    ∙ ap values again
    ∙ sym (ap (λ l. values (put_all l [])) once)

abbrev of_row : Key → Option (Key × ℕ) → ℕ
of_row k none = 0
of_row k (some e) = if texts_eq k e.0 then e.1 else 0

-- The cycles of all rows with the key.
abbrev pub cycles_of : Key → List (List Text) → ℕ
cycles_of k [] = 0
cycles_of k (row ∷ rows) = of_row k (row_cycles row) + cycles_of k rows

add_total_lem :
    (k j : Key) (n : ℕ) (tot : Rows ℕ)
    → count_or_zero (find k (add_total j n tot))
      ≡ count_or_zero (find k tot) + of_row k (some (j, n))
add_total_lem k j n tot = elim (Bool-cases (texts_eq k j)) [
  | inl same ↦
      ap count_or_zero (find-put k j (count_or_zero (find j tot) + n) tot)
      ∙ rw (same, texts_eq-eq k j same) refl
  | inr other ↦
      ap count_or_zero (find-put k j (count_or_zero (find j tot) + n) tot) ∙ rw other (omega arith)
]

totals_from :
    (k : Key) (rows : List (List Text)) (tot tot' : Rows ℕ)
    → totals rows tot ≡ some tot'
    → count_or_zero (find k tot') ≡ count_or_zero (find k tot) + cycles_of k rows
unfolding totals
totals_from k [] tot tot' e =
    ap (λ t. count_or_zero (find k t)) (sym (some-injective tot tot' e)) ∙ omega arith
totals_from k (row ∷ rows) tot tot' e = row_step (row_cycles row) (λ t. totals_from k rows t tot') e
  where
    row_step :
        (o : Option (Key × ℕ))
        → ((t : Rows ℕ)
            → totals rows t ≡ some tot'
            → count_or_zero (find k tot') ≡ count_or_zero (find k t) + cycles_of k rows)
        → ◌≡◌ {A = Option (Rows ℕ)}
            (elim o [ none ↦ none | some (j, n) ↦ totals rows (add_total j n tot) ])
            (some tot')
        → count_or_zero (find k tot') ≡ count_or_zero (find k tot) + (of_row k o + cycles_of k rows)
    row_step none rest h = cc
    row_step (some (j, n)) rest h =
        omega (arith, rest (add_total j n tot) h, add_total_lem k j n tot)

-- For every list of rows that can be read: the total of a variant (or lane count) and a case is the sum
-- of the cycles over all its rows, and 0 where there are none.
pub totals_lem :
    (k : Key) (rows : List (List Text)) (tot : Rows ℕ)
    → totals rows [] ≡ some tot
    → count_or_zero (find k tot) ≡ cycles_of k rows
totals_lem k rows tot e = totals_from k rows [] tot e ∙ omega arith
