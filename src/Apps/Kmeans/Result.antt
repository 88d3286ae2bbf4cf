-- ===== src/Apps/Kmeans/Result.antt =====
-- What the case of kmeans holds.
use simtix.Base.{
  ℕ, ◌/◌, ◌%◌, ◌≤◌, ◌<◌, ◌≡◌, refl, sym, ◌∙◌, arith, List, [], ◌∷◌, none, some, Bool, true, false,
  if◌then◌else◌, length, length-replicate,
}
use simtix.Base.Int.{ℤ, ints, pos}
use simtix.Kernels.{Kernel, slot_of}
use simtix.Ddr.Case.{Case, tag, new_case}
use simtix.Random.{Rng, IsRandom}
use simtix.Apps.Gen.{Config, Run, draw, assert, expect, ◌>>◌}
use simtix.Apps.Logic.{
  Holds, Expects, IsValid, Grows-trans, Grows-of_same, Holds-Grows, Ensures, Ensures-bind,
  Ensures-weaken, Ensures-run, lift_run, Launches, launch-Ensures, RunsOnce, RunsOnce-Launches,
  new_case-IsValid, AllocatesFour, alloc_four-Ensures, length-ints, build-Ensures,
}
use simtix.Apps.Kmeans.Tally.{Sums, start, tally}
use simtix.Apps.Kmeans.Totals.{HasSums, Tallies}
use simtix.Apps.Kmeans.{kmeans_launch, kmeans_body, kmeans}
use simtix.Apps.Kmeans.Drawn.{
  drawn_x, drawn_y, picked, tally-start, length-drawn_x, length-drawn_y, length-picked, picks,
  sample-step,
}
use simtix.Apps.Kmeans.Checks.{zeros, Checks, all_expected-Ensures}

abbrev kmeans_kernel : Bool → Kernel
kmeans_kernel two = if two then Kernel.kmeans_u else Kernel.kmeans

abbrev kmeans_threads : ℕ → Bool → ℕ
kmeans_threads npts two = if two then npts / 2 else npts

-- The condition of the kernel that takes two points per thread.
abbrev FitsPairs : ℕ → ℕ → Bool → Type 0
FitsPairs npts k two = two ≡ true → (npts % 2 ≡ 0) × (k % 2 ≡ 0)

-- A case for the points `px`, `py` and the centroids `cx`, `cy`.
pub record IsKmeans (c : Case) (slot npts k : ℕ) (two : Bool) (px py cx cy : List ℕ) : Type 0 where
  pub a_px : ℕ
  pub a_py : ℕ
  pub a_cx : ℕ
  pub a_cy : ℕ
  pub a_as : ℕ
  pub a_sx : ℕ
  pub a_sy : ℕ
  pub a_cn : ℕ
  pub totals : Sums
  pub valid : IsValid c
  pub once :
      RunsOnce c
        (tag "kmeans")
        slot
        (ints (a_px ∷ a_py ∷ a_cx ∷ a_cy ∷ k ∷ a_as ∷ a_sx ∷ a_sy ∷ a_cn ∷ []))
        (kmeans_threads npts two)
        0
  pub held_px : Holds c a_px (ints px)
  pub held_py : Holds c a_py (ints py)
  pub held_cx : Holds c a_cx (ints cx)
  pub held_cy : Holds c a_cy (ints cy)
  pub tallied : Tallies cx cy px py (start k) totals totals.assign
  pub expected_as : Expects c a_as (ints totals.assign)
  pub expected_sx : Expects c a_sx (ints totals.sx)
  pub expected_sy : Expects c a_sy (ints totals.sy)
  pub expected_cn : Expects c a_cn (ints totals.cn)

kmeans_launch-Ensures :
    (R : Rng) (cfg : Config) (npts k slot : ℕ) (two : Bool) (params : List ℤ)
    → FitsPairs npts k two
    → (r : Run R.State) → IsValid r.case
    → slot_of cfg.slots (kmeans_kernel two) ≡ some slot
    → Ensures
        (λ _ r'. Launches r (tag "kmeans") slot params (kmeans_threads npts two) 0 r')
        (kmeans_launch R cfg npts k two params r)
unfolding kmeans_launch assert
kmeans_launch-Ensures R cfg npts k slot true params fits r v found =
    let (e, f) = fits refl in
    rw (e, f, assert)
      (launch-Ensures cfg (tag "kmeans") Kernel.kmeans_u params (npts / 2) 0 slot r v found)
kmeans_launch-Ensures R cfg npts k slot false params fits r v found =
    launch-Ensures cfg (tag "kmeans") Kernel.kmeans params npts 0 slot r v found

module _ {S : Type 0} {r0 r1 r2 r3 r4 : Run S} (slot npts k : ℕ) (two : Bool) (px py cx cy : List ℕ)
    (t : Sums) (tallied : Tallies cx cy px py (start k) t t.assign)
    {a_px a_py a_cx a_cy a_as a_sx a_sy a_cn : ℕ} where
  -- The steps of the generator, together.
  steps-IsKmeans :
      AllocatesFour r0 (ints px) (ints py) (ints cx) (ints cy) a_px a_py a_cx a_cy r1
      → AllocatesFour r1 (zeros npts) (zeros k) (zeros k) (zeros k) a_as a_sx a_sy a_cn r2
      → Launches r2
          (tag "kmeans")
          slot
          (ints (a_px ∷ a_py ∷ a_cx ∷ a_cy ∷ k ∷ a_as ∷ a_sx ∷ a_sy ∷ a_cn ∷ []))
          (kmeans_threads npts two)
          0
          r3
      → Checks r3 a_as a_sx a_sy a_cn t r4
      → r0.case.launches ≡ []
      → IsKmeans r4.case slot npts k two px py cx cy
  steps-IsKmeans I O L C none_yet =
      let same = Grows-of_same {c = r3.case} {d = r4.case} C.same_img in
      let once = RunsOnce-Launches L (O.same_launches ∙ I.same_launches ∙ none_yet) in
      let up = Grows-trans O.grows (Grows-trans L.grows same) in
      record {
        a_px = a_px;
        a_py = a_py;
        a_cx = a_cx;
        a_cy = a_cy;
        a_as = a_as;
        a_sx = a_sx;
        a_sy = a_sy;
        a_cn = a_cn;
        totals = t;
        valid = C.valid;
        once = record {
          block = once.block;
          listed = C.same_launches ∙ once.listed;
          holds =
              Holds-Grows once.block
                (ints (a_px ∷ a_py ∷ a_cx ∷ a_cy ∷ k ∷ a_as ∷ a_sx ∷ a_sy ∷ a_cn ∷ [])) once.holds
                same;
        };
        held_px = Holds-Grows a_px (ints px) I.first up;
        held_py = Holds-Grows a_py (ints py) I.second up;
        held_cx = Holds-Grows a_cx (ints cx) I.third up;
        held_cy = Holds-Grows a_cy (ints cy) I.fourth up;
        tallied = tallied;
        expected_as = C.expected_as;
        expected_sx = C.expected_sx;
        expected_sy = C.expected_sy;
        expected_cn = C.expected_cn;
      }

-- For every source and every k points or more, k > 0, `kmeans` gives a case: it is well formed, it
-- launches the kernel once over the points drawn and the k points picked as centroids, and it
-- expects for each point the first of its nearest centroids, and for each centroid the sums and the
-- number of its points. The kernel has a slot, and the kernel of two points per thread needs even
-- numbers.
pub kmeans-IsKmeans :
    (R : Rng) (cfg : Config) (npts k slot : ℕ) (two : Bool) (s : R.State)
    → IsRandom R
    → 0 < k
    → k ≤ npts
    → slot_of cfg.slots (kmeans_kernel two) ≡ some slot
    → FitsPairs npts k two
    → (c : Case) × (s' : R.State) × (kmeans R cfg npts k two s ≡ some (c, s'))
      × IsKmeans c slot npts k two
          (drawn_x R npts k s)
          (drawn_y R npts k s)
          (picked R npts k s (drawn_x R npts k s))
          (picked R npts k s (drawn_y R npts k s))
unfolding kmeans kmeans_body draw
kmeans-IsKmeans R cfg npts k slot two s law more le found fits =
    build-Ensures R {P = λ _ r. IsKmeans r.case slot npts k two px py cx cy}
      (kmeans_body R cfg npts k two) (new_case _ (npts ∷ k ∷ [])) s
      (Ensures-run _ (sample-step R law npts k s le _ refl) (
        Ensures-run _ (lift_run _ (picks R law npts k s le px lpx)) (
          Ensures-run _ (lift_run _ (picks R law npts k s le py lpy)) (
            alloc_four-Ensures npts npts k k (some (ints px)) (some (ints py)) (some (ints cx))
              (some (ints cy)) (new_case-IsValid _ _) (length-ints px ∙ lpx) (length-ints py ∙ lpy)
              (length-ints cx ∙ lcx) (length-ints cy ∙ lcy)
              λ a_px a_py a_cx a_cy r1 I.
                alloc_four-Ensures npts k k k none none none none I.valid (length-replicate _ _)
                  (length-replicate _ _) (length-replicate _ _) (length-replicate _ _)
                  λ a_as a_sx a_sy a_cn r2 O.
                    Ensures-bind
                      (kmeans_launch-Ensures R cfg npts k slot two _ fits r2 O.valid found)
                      λ _ r3 L. Ensures-run _ (lift_run _ counted.1) (
                        Ensures-weaken (checked O L) λ _ r4 C.
                          steps-IsKmeans slot npts k two px py cx cy counted.0 counted.2 I O L C
                            refl)))))
  where
    px : List ℕ
    px = drawn_x R npts k s

    py : List ℕ
    py = drawn_y R npts k s

    cx : List ℕ
    cx = picked R npts k s px

    cy : List ℕ
    cy = picked R npts k s py

    lpx : length px ≡ npts
    lpx = length-drawn_x R law npts k s le

    lpy : length py ≡ npts
    lpy = length-drawn_y R law npts k s le

    lcx : length cx ≡ k
    lcx = length-picked R law npts k s le px

    lcy : length cy ≡ k
    lcy = length-picked R law npts k s le py

    counted :
        (t : Sums) × (tally cx cy px py (start k) ≡ some t)
        × Tallies cx cy px py (start k) t t.assign
    counted = tally-start cx cy px py k lcx lcy more (lpx ∙ sym lpy)

    sums_of : {t : Sums} → HasSums (length cx) t → HasSums k t
    sums_of h = record { len_sx = h.len_sx ∙ lcx; len_sy = h.len_sy ∙ lcx; len_cn = h.len_cn ∙ lcx }

    -- The expectations, in the buffers that were allocated for them.
    checked :
        {a_as a_sx a_sy a_cn : ℕ} {params : List ℤ} {r1 r2 r3 : Run R.State}
        → AllocatesFour r1 (zeros npts) (zeros k) (zeros k) (zeros k) a_as a_sx a_sy a_cn r2
        → Launches r2 (tag "kmeans") slot params (kmeans_threads npts two) 0 r3
        → Ensures
            (λ _ r4. Checks r3 a_as a_sx a_sy a_cn counted.0 r4)
            ((expect a_as (ints (counted.0).assign)
                >> (expect a_sx (ints (counted.0).sx)
                    >> (expect a_sy (ints (counted.0).sy) >> expect a_cn (ints (counted.0).cn))))
              r3)
    checked {a_as} {a_sx} {a_sy} {a_cn} {r3} O L =
        all_expected-Ensures r3 a_as a_sx a_sy a_cn npts k counted.0 (counted.2.count ∙ lpx)
          (sums_of counted.2.sums) L.valid (Holds-Grows a_as _ O.first L.grows)
          (Holds-Grows a_sx _ O.second L.grows) (Holds-Grows a_sy _ O.third L.grows)
          (Holds-Grows a_cn _ O.fourth L.grows)
          (omega (arith, O.order_ab, length-replicate npts (pos 0)))
          (omega (arith, O.order_bc, length-replicate k (pos 0)))
          (omega (arith, O.order_cd, length-replicate k (pos 0)))
