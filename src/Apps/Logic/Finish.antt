-- ===== src/Apps/Logic/Finish.antt =====
-- The last steps of a case with one launch.
use simtix.Base.{
  ℕ, ◌+◌, ◌*◌, ◌≤◌, ◌<◌, ◌≡◌, sym, ap, ◌∙◌, inl, inr, List, [], ◌∷◌, ◌++◌, Option, none, some, Dict,
  lookup, length, lt_of_get_elem?, arith,
}
use simtix.Base.Int.{ℤ}
use simtix.Ddr.{Image}
use simtix.Ddr.Layout.{store_words_from}
use simtix.Ddr.Case.{Case, Tag, Launch}
use simtix.Apps.Gen.{Run, expect}
use simtix.Apps.Logic.Held.{Holds, Expects, IsValid, Grows, Grows-trans, Grows-of_same, Holds-Grows}
use simtix.Apps.Logic.Runs.{Ensures, Ensures-weaken}
use simtix.Apps.Logic.Steps.{Launches, Expected, expect-Ensures}

none_is_some : {w : ℕ} → ¬ (◌≡◌ {A = Option ℕ} none (some w))
none_is_some e = cc

-- A case with one launch, whose parameter block holds `params`.
pub record RunsOnce (c : Case) (tg : Tag) (slot : ℕ) (params : List ℤ) (threads blk : ℕ)
    : Type 0 where
  pub block : ℕ
  pub listed :
      c.launches
      ≡ record { tag = tg; slot = slot; params = block; threads = threads; blk = blk } ∷ []
  pub holds : Holds c block params

-- A buffer that an earlier step filled still holds its words after an expectation.
module _ {S : Type 0} where
  pub Holds-Expected :
      {r r' : Run S} {at : ℕ} {es : List ℤ} (addr : ℕ) (vals : List ℤ)
      → Expected r at es r'
      → Holds r.case addr vals
      → Holds r'.case addr vals
  Holds-Expected addr vals p h i v e =
      ap (λ (img : Image). lookup (addr + 4 * i) img.words) p.same_img ∙ h i v e

-- The words of `vals` from `addr` on are the only ones expected.
pub record ChecksOnly (c : Case) (addr : ℕ) (vals : List ℤ) : Type 0 where
  pub expects : Expects c addr vals
  pub only : (a w : ℕ) → lookup a c.gold ≡ some w → (i : ℕ) × (i < length vals) × (a ≡ addr + 4 * i)

-- One launch and one expectation, the last steps of a case.
pub record Finished {S : Type 0} (r : Run S) (tg : Tag) (slot : ℕ) (params : List ℤ) (threads : ℕ)
    (addr : ℕ) (vals : List ℤ) (r' : Run S) : Type 0 where
  pub valid : IsValid r'.case
  pub once : RunsOnce r'.case tg slot params threads 0
  pub grows : Grows r.case r'.case
  pub checks : ChecksOnly r'.case addr vals

module _ {S : Type 0} where
  -- The expectation after a launch, in a case with no other launch and nothing expected yet.
  pub finish-Ensures :
      {tg : Tag} {params : List ℤ} {threads slot : ℕ} {r r1 : Run S} (addr : ℕ) (vals old : List ℤ)
      → Launches r tg slot params threads 0 r1
      → r.case.launches ≡ []
      → r.case.gold ≡ []
      → Holds r.case addr old
      → length vals ≡ length old
      → Ensures (λ _ r'. Finished r tg slot params threads addr vals r') (expect addr vals r1)
  finish-Ensures {tg} {params} {threads} {slot} {r} {r1} addr vals old L none_yet no_gold h len =
      Ensures-weaken (expect-Ensures addr vals old r1 L.valid (Holds-Grows addr old h L.grows) len)
        λ _ r2 E. record {
          valid = E.valid;
          once = record {
            block = L.block;
            listed =
                E.same_launches
                ∙ L.listed
                ∙ ap
                    (λ (l : List Launch).
                      l
                      ++ (record {
                        tag = tg;
                        slot = slot;
                        params = L.block;
                        threads = threads;
                        blk = 0;
                      })
                        ∷ [])
                    none_yet;
            holds = Holds-Expected L.block params E L.holds;
          };
          grows = Grows-trans L.grows (Grows-of_same E.same_img);
          checks = record {
            expects = E.expects;
            only = λ a w g.
                elim (store_words_from a w addr vals r1.case.gold
                  (sym (ap (λ (d : Dict ℕ). lookup a d) E.stored) ∙ g)) [
                    | inl before ↦
                        elim (none_is_some (
                          ap (λ (d : Dict ℕ). lookup a d) (sym (L.same_gold ∙ no_gold))
                          ∙ before)) [ ]
                    | inr (i, lt, e) ↦ (i, lt, e)
                  ];
          };
        }

-- What an expectation keeps.
module _ {S : Type 0} where
  -- Words expected below its range stay expected.
  pub Expects-Expected :
      {r r' : Run S} {at : ℕ} {es : List ℤ} (addr : ℕ) (vals : List ℤ)
      → Expected r at es r'
      → addr + 4 * length vals ≤ at
      → Expects r.case addr vals
      → Expects r'.case addr vals
  Expects-Expected addr vals p le h i v e =
      p.below (addr + 4 * i) (omega (arith, lt_of_get_elem? vals i v e)) ∙ h i v e

  -- The first launch of a case.
  pub RunsOnce-Launches :
      {r r' : Run S} {tg : Tag} {slot : ℕ} {params : List ℤ} {threads blk : ℕ}
      → Launches r tg slot params threads blk r'
      → r.case.launches ≡ []
      → RunsOnce r'.case tg slot params threads blk
  RunsOnce-Launches {tg} {slot} {threads} {blk} L none_yet = record {
    block = L.block;
    listed =
        L.listed
        ∙ ap
            (λ (l : List Launch).
              l
              ++ (record { tag = tg; slot = slot; params = L.block; threads = threads; blk = blk })
                ∷ [])
            none_yet;
    holds = L.holds;
  }
