-- ===== src/Apps/Gemm/Result.antt =====
-- What the case of gemm holds.
use mathlib.Core.Path.{subst}
use simtix.Base.{
  ℕ, ◌+◌, ◌*◌, ◌/◌, ◌%◌, ◌<◌, ◌≡◌, refl, sym, ◌∙◌, arith, List, [], ◌∷◌, none, some, Bool, true,
  false, if◌then◌else◌, length, length-replicate, get_elem?, get_elem?_of_lt, range_from,
}
use simtix.Base.Int.{ints, pos}
use simtix.Base.Arith.{index_lt}
use simtix.Kernels.{Kernel, slot_of}
use simtix.Ddr.Case.{Case, tag, new_case}
use simtix.Random.{Rng, IsRandom, rand_f32}
use simtix.Fp.Accumulate.{AreUnit, Accumulates, accumulate_total}
use simtix.Apps.Gen.{Config, Run, draw, draws, lift, assert}
use simtix.Apps.Logic.{
  Holds, IsValid, Grows-trans, Holds-Grows, Ensures, Ensures-bind, alloc_words-Ensures, Launches,
  launch-Ensures, ChecksOnly, RunsOnce, new_case-IsValid, length-draws, length-ints, build-Ensures,
  Ensures-weaken, finish-Ensures,
}
use simtix.Apps.Inputs.{AllUnit, draws-AllUnit}
use simtix.Apps.Loops.{CollectsRows, rows-CollectsRows, mem-range_from}
use simtix.Apps.Gemm.{factors, entry, product, gemm_params, gemm_launch, gemm_body, gemm}

module _ (a b : List ℕ) (m n k : ℕ) (la : length a ≡ m * k) (lb : length b ≡ k * n) (ua : AllUnit a)
    (ub : AllUnit b) where
  factors-AreUnit : (r col kk : ℕ) → r < m → col < n → kk < k → AreUnit (factors a b n k r col kk)
  unfolding factors
  factors-AreUnit r col kk hr hc hk =
      let (x, ex) = get_elem?_of_lt a (r * k + kk) (omega (arith, index_lt r kk m k hr hk)) in
      let (y, ey) = get_elem?_of_lt b (kk * n + col) (omega (arith, index_lt kk col k n hk hc)) in
      record {
        first = x;
        second = y;
        read = rw (ex, ey, factors) refl;
        first-le = ua _ x ex;
        second-le = ub _ y ey;
      }

  -- The product of matrices of numbers between -1.0 and 1.0 has every entry, in rows, and each is
  -- the sum of its row and column's products, rounded once per step.
  product-CollectsRows :
      CollectsRows
        (λ r col w. Accumulates (factors a b n k r col) (range_from 0 k) 0 w)
        0
        m
        n
        (product a b m n k)
  unfolding product entry
  product-CollectsRows = rows-CollectsRows (entry a b n k) _ 0 m n λ r col hr hc.
      let (w, e, le, steps) =
        accumulate_total (factors a b n k (0 + r) col) (range_from 0 k) 0
          (λ j mem.
            factors-AreUnit (0 + r) col j (omega arith) hc
              (omega (arith, mem-range_from j 0 k mem)))
          (omega arith) in
      (w, e, steps)

abbrev gemm_kernel : Bool → Kernel
gemm_kernel blocked = if blocked then Kernel.gemm_rb else Kernel.gemm

abbrev gemm_threads : ℕ → ℕ → Bool → ℕ
gemm_threads m n blocked = if blocked then m * n / 16 else m * n

-- A case that multiplies the matrices `a` and `b`.
pub record IsGemm (c : Case) (slot m n k : ℕ) (blocked : Bool) (a b : List ℕ) : Type 0 where
  pub pa : ℕ
  pub pb : ℕ
  pub pc : ℕ
  pub out : List ℕ
  pub valid : IsValid c
  pub once : RunsOnce c (tag "gemm") slot (gemm_params n k pa pb pc) (gemm_threads m n blocked) 0
  pub first : Holds c pa (ints a)
  pub second : Holds c pb (ints b)
  pub count : length out ≡ m * n
  pub entries :
      (r col : ℕ)
      → r < m
      → col < n
      → (w : ℕ) × (get_elem? out (r * n + col) ≡ some w)
        × Accumulates (factors a b n k r col) (range_from 0 k) 0 w
  pub checked : ChecksOnly c pc (ints out)

-- The condition that the blocked kernel asks for.
abbrev FitsBlocks : Config → ℕ → ℕ → Bool → Type 0
FitsBlocks cfg m n blocked = blocked ≡ true → (m % 4 ≡ 0) × (n % (4 * cfg.lanes) ≡ 0)

gemm_launch-Ensures :
    (R : Rng) (cfg : Config) (m n k pa pb pc slot : ℕ) (blocked : Bool)
    → FitsBlocks cfg m n blocked
    → (r : Run R.State) → IsValid r.case
    → slot_of cfg.slots (gemm_kernel blocked) ≡ some slot
    → Ensures
        (λ _ r'.
          Launches r (tag "gemm") slot (gemm_params n k pa pb pc) (gemm_threads m n blocked) 0 r')
        (gemm_launch R cfg m n k blocked pa pb pc r)
unfolding gemm_launch assert
gemm_launch-Ensures R cfg m n k pa pb pc slot true fits r v found =
    let (e, f) = fits refl in
    rw (e, f, assert)
      (launch-Ensures cfg (tag "gemm") Kernel.gemm_rb (gemm_params n k pa pb pc) (m * n / 16) 0 slot
        r v found)
gemm_launch-Ensures R cfg m n k pa pb pc slot false fits r v found =
    launch-Ensures cfg (tag "gemm") Kernel.gemm (gemm_params n k pa pb pc) (m * n) 0 slot r v found

-- For every source that draws numbers between -1.0 and 1.0, `gemm` gives a case, whatever the sizes:
-- it is well formed, it launches the kernel once over the two matrices drawn, and it expects just
-- the m * n entries of their product, each the sum of its row and column's products rounded to
-- nearest even in every step. The kernel must have a slot, and the blocked kernel needs m % 4 = 0 and n % (4 * LANES) = 0.
pub gemm-IsGemm :
    (R : Rng) (cfg : Config) (m n k slot : ℕ) (blocked : Bool) (s : R.State)
    → IsRandom R
    → slot_of cfg.slots (gemm_kernel blocked) ≡ some slot
    → FitsBlocks cfg m n blocked
    → (c : Case) × (s' : R.State) × (gemm R cfg m n k blocked s ≡ some (c, s'))
      × IsGemm c slot m n k blocked
          (draws (m * k) (rand_f32 R) s).0
          (draws (k * n) (rand_f32 R) (draws (m * k) (rand_f32 R) s).1).0
unfolding gemm gemm_body draw lift
gemm-IsGemm R cfg m n k slot blocked s law found fits =
    build-Ensures R {P = λ _ r. IsGemm r.case slot m n k blocked a b}
      (gemm_body R cfg m n k blocked) (new_case _ (m ∷ n ∷ k ∷ [])) s
      (Ensures-bind
        (alloc_words-Ensures (m * k) (some (ints a)) _ (new_case-IsValid _ _) (length-ints a ∙ la))
        λ pa r1 A.
          Ensures-bind (alloc_words-Ensures (k * n) (some (ints b)) _ A.valid (length-ints b ∙ lb))
            λ pb r2 B.
              Ensures-bind (alloc_words-Ensures (m * n) none _ B.valid (length-replicate _ _))
                λ pc r3 C.
                  Ensures-bind
                    (gemm_launch-Ensures R cfg m n k pa pb pc slot blocked fits r3 C.valid found)
                    λ _ r4 L.
                      rw (prod.made, lift)
                        (Ensures-weaken
                          (finish-Ensures pc (ints prod.items) _ L
                            (C.same_launches ∙ B.same_launches ∙ A.same_launches)
                            (C.same_gold ∙ B.same_gold ∙ A.same_gold) C.holds
                            (length-ints prod.items
                              ∙ prod.count
                              ∙ sym (length-replicate (m * n) (pos 0))))
                          λ _ r5 F. record {
                            pa = pa;
                            pb = pb;
                            pc = pc;
                            out = prod.items;
                            valid = F.valid;
                            once = F.once;
                            first =
                                Holds-Grows pa (ints a) A.holds
                                  (Grows-trans B.grows (Grows-trans C.grows F.grows));
                            second = Holds-Grows pb (ints b) B.holds (Grows-trans C.grows F.grows);
                            count = prod.count;
                            entries = λ r col hr hc.
                                subst
                                  (λ i.
                                    (w : ℕ) × (get_elem? prod.items (r * n + col) ≡ some w)
                                    × Accumulates (factors a b n k i col) (range_from 0 k) 0 w)
                                  (omega arith) (prod.each r col hr hc);
                            checked = F.checks;
                          }))
  where
    a : List ℕ
    a = (draws (m * k) (rand_f32 R) s).0

    b : List ℕ
    b = (draws (k * n) (rand_f32 R) (draws (m * k) (rand_f32 R) s).1).0

    la : length a ≡ m * k
    la = length-draws (m * k) (rand_f32 R) s

    lb : length b ≡ k * n
    lb = length-draws (k * n) (rand_f32 R) _

    prod :
        CollectsRows
          (λ r col w. Accumulates (factors a b n k r col) (range_from 0 k) 0 w)
          0
          m
          n
          (product a b m n k)
    prod = product-CollectsRows a b m n k la lb (draws-AllUnit R law _ _) (draws-AllUnit R law _ _)
