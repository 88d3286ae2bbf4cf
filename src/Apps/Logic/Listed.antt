-- ===== src/Apps/Logic/Listed.antt =====
-- Cases that launch by levels or by layers: the buffers of a level, and the list of the launches.
use mathlib.Core.List.{append_assoc}
use simtix.Base.{ℕ, ◌≡◌, ap, ◌∙◌, List, [], ◌∷◌, ◌++◌}
use simtix.Base.Int.{ℤ}
use simtix.Ddr.Case.{Launch, Tag}
use simtix.Apps.Gen.{Run}
use simtix.Apps.Logic.Held.{Holds, IsBlock, IsValid, Grows, Grows-trans, Holds-Grows}
use simtix.Apps.Logic.Steps.{Allocates, Launches}

-- A launch, and those of the rest.
pub listed_next :
    (old : List Launch) (x : Launch) (ls : List Launch) {one all : List Launch}
    → one ≡ old ++ x ∷ []
    → all ≡ one ++ ls
    → all ≡ old ++ (x ∷ ls)
listed_next old x ls e f = f ∙ ap (λ (l : List Launch). l ++ ls) e ∙ append_assoc old (x ∷ []) ls

-- A launch before those of the rest, and one behind them.
pub listed_around :
    (old : List Launch) (x : Launch) (ls : List Launch) (y : Launch) {one rest all : List Launch}
    → one ≡ old ++ x ∷ []
    → rest ≡ one ++ ls
    → all ≡ rest ++ y ∷ []
    → all ≡ old ++ (x ∷ ls ++ y ∷ [])
listed_around old x ls y e f g =
    g
    ∙ ap (λ (l : List Launch). l ++ y ∷ []) (listed_next old x ls e f)
    ∙ append_assoc old (x ∷ ls) (y ∷ [])

abbrev pub entry : Tag → ℕ → ℕ → ℕ → ℕ → Launch
entry tg slot p threads blk = record {
  tag = tg;
  slot = slot;
  params = p;
  threads = threads;
  blk = blk;
}

module _ {S : Type 0} where
  -- Two buffers, of which the first holds `u`, and a launch.
  pub record Opened (r : Run S) (u : List ℤ) (a : ℕ) (tg : Tag) (slot : ℕ) (params : List ℤ)
      (threads blk : ℕ) (r' : Run S) : Type 0 where
    pub p : ℕ
    pub listed : r'.case.launches ≡ r.case.launches ++ entry tg slot p threads blk ∷ []
    pub block : IsBlock r'.case p params
    pub first : Holds r'.case a u
    pub grows : Grows r.case r'.case
    pub same_gold : r'.case.gold ≡ r.case.gold
    pub valid : IsValid r'.case

  pub opened :
      {r r1 r2 r3 : Run S} {u v : List ℤ} {a b : ℕ} {tg : Tag} {slot : ℕ} {params : List ℤ}
      {threads blk : ℕ}
      → Allocates r u a r1
      → Allocates r1 v b r2
      → Launches r2 tg slot params threads blk r3
      → Opened r u a tg slot params threads blk r3
  opened {u} {a} {tg} {slot} {threads} {blk} A B L = record {
    p = L.block;
    listed =
        L.listed
        ∙ ap (λ (l : List Launch). l ++ entry tg slot L.block threads blk ∷ [])
            (B.same_launches ∙ A.same_launches);
    block = record { holds = L.holds };
    first = Holds-Grows a u A.holds (Grows-trans B.grows L.grows);
    grows = Grows-trans A.grows (Grows-trans B.grows L.grows);
    same_gold = L.same_gold ∙ B.same_gold ∙ A.same_gold;
    valid = L.valid;
  }
