-- ===== src/Apps/Scan/Prefix.antt =====
-- The expected words of a scan are the prefix sums of its values, modulo 2^32.
use simtix.Base.{
  ℕ, zero, suc, ◌+◌, ◌*◌, ◌%◌, ◌<◌, ◌≡◌, refl, ap, ◌∙◌, arith, List, [], ◌∷◌, length, get_or,
}
use simtix.Base.{get_elem?, some, lookup}
use simtix.Base.Int.{word_mod, pos, ints, to_word-pos}
use simtix.Ddr.Case.{Case}
use simtix.Apps.Logic.{Expects}
use simtix.Apps.Scan.{prefix_sums}

-- The sum of the first n values.
unfoldable pub sum_to : ℕ → List ℕ → ℕ
sum_to zero vals = 0
sum_to (suc n) [] = 0
sum_to (suc n) (v ∷ vals) = v + sum_to n vals

pub length-prefix_sums : (acc : ℕ) (vals : List ℕ) → length (prefix_sums acc vals) ≡ length vals
unfolding prefix_sums
length-prefix_sums acc [] = refl
length-prefix_sums acc (v ∷ vals) = ap suc (length-prefix_sums ((acc + v) % word_mod) vals)

prefix_from :
    (acc : ℕ) (vals : List ℕ) (i : ℕ)
    → i < length vals
    → get_or (prefix_sums acc vals) i 0 ≡ (acc + sum_to (suc i) vals) % word_mod
unfolding prefix_sums sum_to
prefix_from acc [] i h = elim h [ ]
prefix_from acc (v ∷ vals) zero h = omega arith
prefix_from acc (v ∷ vals) (suc i) h =
    omega (arith, prefix_from ((acc + v) % word_mod) vals i (omega arith))

-- Word i of the prefix sums is the sum of the first i + 1 values, modulo 2^32.
prefix_sums_lem :
    (vals : List ℕ) (i : ℕ)
    → i < length vals
    → get_or (prefix_sums 0 vals) i 0 ≡ sum_to (suc i) vals % word_mod
prefix_sums_lem vals i h = omega (arith, prefix_from 0 vals i h)

get_elem?-ints :
    (l : List ℕ) (i : ℕ) → i < length l → get_elem? (ints l) i ≡ some (pos (get_or l i 0))
get_elem?-ints [] i h = elim h [ ]
get_elem?-ints (x ∷ l) zero h = refl
get_elem?-ints (x ∷ l) (suc i) h = get_elem?-ints l i (omega arith)

-- Word i from `out` on is expected to be the sum of the first i + 1 values, modulo 2^32.
abbrev pub ExpectsPrefixes : Case → ℕ → List ℕ → Type 0
ExpectsPrefixes c out vals =
    (i : ℕ) → i < length vals → lookup (out + 4 * i) c.gold ≡ some (sum_to (suc i) vals % word_mod)

pub Expects-ExpectsPrefixes :
    (c : Case) (out : ℕ) (vals : List ℕ)
    → Expects c out (ints (prefix_sums 0 vals))
    → ExpectsPrefixes c out vals
Expects-ExpectsPrefixes c out vals h i lt =
    h i (pos (get_or (prefix_sums 0 vals) i 0))
      (get_elem?-ints (prefix_sums 0 vals) i (omega (arith, length-prefix_sums 0 vals)))
    ∙ ap (λ (w : ℕ). some w)
        (to_word-pos (get_or (prefix_sums 0 vals) i 0) (omega (arith, prefix_sums_lem vals i lt))
          ∙ prefix_sums_lem vals i lt)
