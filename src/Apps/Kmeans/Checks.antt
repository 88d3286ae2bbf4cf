-- ===== src/Apps/Kmeans/Checks.antt =====
-- The four expectations of kmeans in sim/gen_apps.py.
use simtix.Base.{ℕ, ◌+◌, ◌*◌, ◌≤◌, ◌≡◌, sym, ◌∙◌, arith, List, length, length-replicate, replicate}
use simtix.Base.Int.{ℤ, ints, pos}
use simtix.Apps.Gen.{Run, ◌>>◌, expect}
use simtix.Apps.Logic.{
  Holds, Expects, IsValid, Ensures, Ensures-bind, Ensures-weaken, length-ints, expect-Ensures,
  Holds-Expected, Expects-Expected,
}
use simtix.Apps.Kmeans.Tally.{Sums}
use simtix.Apps.Kmeans.Totals.{HasSums}

abbrev pub zeros : ℕ → List ℤ
zeros n = replicate n (pos 0)

module _ {S : Type 0} (r : Run S) (a_as a_sx a_sy a_cn : ℕ) (t : Sums) where
  -- The four results are expected, each in its own buffer.
  pub record Checks (r' : Run S) : Type 0 where
    pub valid : IsValid r'.case
    pub same_img : r'.case.img ≡ r.case.img
    pub same_launches : r'.case.launches ≡ r.case.launches
    pub expected_as : Expects r'.case a_as (ints t.assign)
    pub expected_sx : Expects r'.case a_sx (ints t.sx)
    pub expected_sy : Expects r'.case a_sy (ints t.sy)
    pub expected_cn : Expects r'.case a_cn (ints t.cn)

module _ {S : Type 0} (r : Run S) (a_as a_sx a_sy a_cn npts k : ℕ) (t : Sums)
    (len_as : length t.assign ≡ npts) (sums : HasSums k t) where
  pub all_expected-Ensures :
      IsValid r.case
      → Holds r.case a_as (zeros npts)
      → Holds r.case a_sx (zeros k)
      → Holds r.case a_sy (zeros k)
      → Holds r.case a_cn (zeros k)
      → a_as + 4 * npts ≤ a_sx
      → a_sx + 4 * k ≤ a_sy
      → a_sy + 4 * k ≤ a_cn
      → Ensures
          (λ _ r'. Checks r a_as a_sx a_sy a_cn t r')
          ((expect a_as (ints t.assign)
              >> (expect a_sx (ints t.sx) >> (expect a_sy (ints t.sy) >> expect a_cn (ints t.cn))))
            r)
  all_expected-Ensures v ha hx hy hn o1 o2 o3 =
      Ensures-bind
        (expect-Ensures a_as (ints t.assign) (zeros npts) r v ha (fits t.assign npts len_as))
        λ _ r1 A.
          Ensures-bind
            (expect-Ensures a_sx (ints t.sx) (zeros k) r1 A.valid (Holds-Expected a_sx _ A hx)
              (fits t.sx k sums.len_sx))
            λ _ r2 X.
              Ensures-bind
                (expect-Ensures a_sy (ints t.sy) (zeros k) r2 X.valid
                  (Holds-Expected a_sy _ X (Holds-Expected a_sy _ A hy)) (fits t.sy k sums.len_sy))
                λ _ r3 Y.
                  Ensures-weaken
                    (expect-Ensures a_cn (ints t.cn) (zeros k) r3 Y.valid
                      (Holds-Expected a_cn _ Y
                        (Holds-Expected a_cn _ X (Holds-Expected a_cn _ A hn)))
                      (fits t.cn k sums.len_cn))
                    λ _ r4 N. record {
                      valid = N.valid;
                      same_img = N.same_img ∙ Y.same_img ∙ X.same_img ∙ A.same_img;
                      same_launches =
                          N.same_launches ∙ Y.same_launches ∙ X.same_launches ∙ A.same_launches;
                      expected_as = Expects-Expected a_as _ N (omega (arith, la, o1, o2, o3)) (
                          Expects-Expected a_as _ Y (omega (arith, la, o1, o2))
                            (Expects-Expected a_as _ X (omega (arith, la, o1)) A.expects));
                      expected_sx =
                          Expects-Expected a_sx _ N (omega (arith, lx, o2, o3))
                            (Expects-Expected a_sx _ Y (omega (arith, lx, o2)) X.expects);
                      expected_sy = Expects-Expected a_sy _ N (omega (arith, ly, o3)) Y.expects;
                      expected_cn = N.expects;
                    }
    where
      fits : (l : List ℕ) (n : ℕ) → length l ≡ n → length (ints l) ≡ length (zeros n)
      fits l n e = length-ints l ∙ e ∙ sym (length-replicate n (pos 0))

      la : length (ints t.assign) ≡ npts
      la = length-ints t.assign ∙ len_as

      lx : length (ints t.sx) ≡ k
      lx = length-ints t.sx ∙ sums.len_sx

      ly : length (ints t.sy) ≡ k
      ly = length-ints t.sy ∙ sums.len_sy
