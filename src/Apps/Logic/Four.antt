-- ===== src/Apps/Logic/Four.antt =====
-- Four allocations in a row, as kmeans and spmv of sim/gen_apps.py begin.
use simtix.Base.{ℕ, ◌+◌, ◌*◌, ◌≤◌, ◌≡◌, ◌∙◌, arith, List, Option, length}
use simtix.Base.Int.{ℤ}
use simtix.Ddr.{init_or_zeros}
use simtix.Apps.Gen.{Run, Gen, ◌>>=◌, alloc_words}
use simtix.Apps.Logic.Held.{Holds, IsValid, Grows, Grows-trans, Holds-Grows}
use simtix.Apps.Logic.Runs.{Ensures, Ensures-bind}
use simtix.Apps.Logic.Steps.{Allocates, alloc_words-Ensures}

module _ {S : Type 0} where
  pub record AllocatesFour (r : Run S) (u v w x : List ℤ) (a b c d : ℕ) (r' : Run S) : Type 0 where
    pub first : Holds r'.case a u
    pub second : Holds r'.case b v
    pub third : Holds r'.case c w
    pub fourth : Holds r'.case d x
    pub order_ab : a + 4 * length u ≤ b
    pub order_bc : b + 4 * length v ≤ c
    pub order_cd : c + 4 * length w ≤ d
    pub grows : Grows r.case r'.case
    pub same_gold : r'.case.gold ≡ r.case.gold
    pub same_launches : r'.case.launches ≡ r.case.launches
    pub valid : IsValid r'.case

  four :
      {r r1 r2 r3 r4 : Run S} {u v w x : List ℤ} {a b c d : ℕ}
      → Allocates r u a r1
      → Allocates r1 v b r2
      → Allocates r2 w c r3
      → Allocates r3 x d r4
      → AllocatesFour r u v w x a b c d r4
  four {u} {v} {w} {a} {b} {c} A B C D =
      let g3 = D.grows in
      let g2 = Grows-trans C.grows g3 in
      let g1 = Grows-trans B.grows g2 in
      record {
        first = Holds-Grows a u A.holds g1;
        second = Holds-Grows b v B.holds g2;
        third = Holds-Grows c w C.holds g3;
        fourth = D.holds;
        order_ab = omega (arith, A.room, B.placed);
        order_bc = omega (arith, B.room, C.placed);
        order_cd = omega (arith, C.room, D.placed);
        grows = Grows-trans A.grows g1;
        same_gold = D.same_gold ∙ C.same_gold ∙ B.same_gold ∙ A.same_gold;
        same_launches = D.same_launches ∙ C.same_launches ∙ B.same_launches ∙ A.same_launches;
        valid = D.valid;
      }

  pub alloc_four-Ensures :
      {B : Type 0} {Q : B → Run S → Type 0} {f : ℕ → ℕ → ℕ → ℕ → Gen S B} {r : Run S} (k l m n : ℕ)
      (i j p q : Option (List ℤ))
      → IsValid r.case
      → length (init_or_zeros k i) ≡ k
      → length (init_or_zeros l j) ≡ l
      → length (init_or_zeros m p) ≡ m
      → length (init_or_zeros n q) ≡ n
      → ((a b c d : ℕ) (r' : Run S)
          → AllocatesFour r
              (init_or_zeros k i)
              (init_or_zeros l j)
              (init_or_zeros m p)
              (init_or_zeros n q)
              a
              b
              c
              d
              r'
          → Ensures Q (f a b c d r'))
      → Ensures Q (
          (alloc_words k i >>= λ a.
          alloc_words l j >>= λ b. alloc_words m p >>= λ c. alloc_words n q >>= λ d. f a b c d)
            r)
  alloc_four-Ensures {r} k l m n i j p q valid ek el em en next =
      Ensures-bind (alloc_words-Ensures k i r valid ek) λ a r1 A.
        Ensures-bind (alloc_words-Ensures l j r1 A.valid el) λ b r2 B.
          Ensures-bind (alloc_words-Ensures m p r2 B.valid em) λ c r3 C.
            Ensures-bind (alloc_words-Ensures n q r3 C.valid en)
              λ d r4 D. next a b c d r4 (four A B C D)
