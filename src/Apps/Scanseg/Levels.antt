-- ===== src/Apps/Scanseg/Levels.antt =====
-- The launches of a scan by segments, level by level; the levels shrink, so they end.
use native.Mathlib.Nat.{div-add-mod, mod-lt, mul-le-mul, mul-le-mul_right, mul-mod_left}
use native.Mathlib.Omega.{by_contra}
use simtix.Base.{
  ℕ, zero, suc, ◌+◌, ◌-◌, ◌*◌, ◌/◌, ◌%◌, ◌≤◌, ◌<◌, ◌≡◌, ap, ◌∙◌, arith, List, [], ◌∷◌, ◌++◌, none,
  some, ltb, Bool-cases, inl, inr, replicate, length-replicate,
}
use simtix.Base.Int.{pos, ints}
use simtix.Kernels.{Kernel, slot_of, ceil_div}
use simtix.Ddr.Case.{Case, Launch, numbered}
use simtix.Random.{Rng}
use simtix.Apps.Gen.{Config, Run}
use simtix.Apps.Logic.{
  Holds, IsBlock, IsBlock-Grows, IsValid, Grows, Grows-trans, Holds-Grows, Ensures, ensures,
  Ensures-bind, Ensures-run, lift_run, alloc_words-Ensures, Launches, launch-Ensures, Opened,
  opened, listed_around,
}
use simtix.Apps.Scan.{round_up}
use simtix.Apps.Scan.Levels.{product_lem}
use simtix.Apps.Scanseg.{seg_level}
use simtix.Apps.Scanseg.Segments.{IsSegment, segment_rows-IsSegment}

-- The number of segments of r rows.
abbrev segments : ℕ → ℕ → ℕ → ℕ
segments lanes m r = m / (r * lanes)

abbrev seg_launch : ℕ → ℕ → ℕ → ℕ → Launch
seg_launch lvl slot p threads = record {
  tag = numbered "seg" lvl;
  slot = slot;
  params = p;
  threads = threads;
  blk = 0;
}

abbrev segadd_launch : ℕ → ℕ → ℕ → ℕ → Launch
segadd_launch lvl slot p threads = record {
  tag = numbered "segadd" lvl;
  slot = slot;
  params = p;
  threads = threads;
  blk = 0;
}

-- In the case c: the launches that scan the m words at `src` into `out`, numbered from `lvl` to
-- `last`. On every level the segments of r rows divide the words, and a warp of `lanes` threads takes
-- each.
pub data SegmentsBy (c : Case) (lanes rows slot slot_add : ℕ)
    : ℕ → ℕ → ℕ → List Launch → ℕ → ℕ → Type 0 where
  one_segment :
      {src m lvl out : ℕ} (r tot p : ℕ)
      → IsSegment lanes rows m r
      → segments lanes m r ≤ 1
      → IsBlock c p (ints (src ∷ out ∷ tot ∷ r ∷ []))
      → SegmentsBy c lanes rows slot slot_add src m lvl
          (seg_launch lvl slot p (lanes * segments lanes m r) ∷ [])
          out
          (lvl + 1)
  more_segments :
      {src m lvl out : ℕ} (r tot tsc p q last : ℕ) (ls : List Launch)
      → IsSegment lanes rows m r
      → 1 < segments lanes m r
      → IsBlock c p (ints (src ∷ out ∷ tot ∷ r ∷ []))
      → SegmentsBy c lanes rows slot slot_add tot
          (round_up (segments lanes m r) lanes)
          (lvl + 1)
          ls
          tsc
          last
      → IsBlock c q (ints (out ∷ tsc ∷ r ∷ []))
      → SegmentsBy c lanes rows slot slot_add src m lvl
          (seg_launch lvl slot p (lanes * segments lanes m r) ∷ ls
            ++ segadd_launch last slot_add q (lanes * segments lanes m r) ∷ [])
          out
          (last + 1)

pub SegmentsBy-Grows :
    {c d : Case} {lanes rows slot slot_add src m lvl out last : ℕ} {ls : List Launch}
    → SegmentsBy c lanes rows slot slot_add src m lvl ls out last
    → Grows c d
    → SegmentsBy d lanes rows slot slot_add src m lvl ls out last
SegmentsBy-Grows (one_segment r tot p seg few h) g = one_segment r tot p seg few (IsBlock-Grows h g)
SegmentsBy-Grows (more_segments r tot tsc p q last ls seg many h rest k) g =
    more_segments r tot tsc p q last ls seg many (IsBlock-Grows h g) (SegmentsBy-Grows rest g)
      (IsBlock-Grows k g)

-- The totals of more than one segment are whole lines of lanes, and fewer than the words.
totals :
    (lanes m r : ℕ)
    → 2 ≤ lanes
    → 0 < r
    → m % (r * lanes) ≡ 0
    → 1 < segments lanes m r
    → (round_up (segments lanes m r) lanes < m)
      × (lanes ≤ round_up (segments lanes m r) lanes)
      × (round_up (segments lanes m r) lanes % lanes ≡ 0)
totals lanes m r hl hr whole many = (
  omega (
    arith,
    div-add-mod m (r * lanes),
    div-add-mod (count + lanes - 1) lanes,
    mul-le-mul_right {m = 1} {n = r} (lanes * count) (omega arith),
    mul-le-mul {n₁ = 1} {m₁ = 1} {n₂ = count - 1} {m₂ = lanes - 1} (omega arith) (omega arith),
    product_lem count lanes many hl,
  ),
  omega (arith, mul-le-mul_right {m = 1} {n = ceil_div count lanes} lanes one_line),
  mul-mod_left (ceil_div count lanes) lanes,
)
  where
    count : ℕ
    count = segments lanes m r

    one_line : 0 < ceil_div count lanes
    one_line = by_contra _ _ λ none_there.
        let e : ceil_div count lanes ≡ 0 = omega arith in
        omega (
          arith,
          div-add-mod (count + lanes - 1) lanes,
          mod-lt (count + lanes - 1) {m = lanes} (omega arith),
          ap (λ (t : ℕ). lanes * t) e,
        )

module _ (R : Rng) (cfg : Config) (rows slot slot_add : ℕ) (lanes : 2 ≤ cfg.lanes)
    (some_rows : 0 < rows) (found : slot_of cfg.slots Kernel.scan_seg ≡ some slot)
    (found_add : slot_of cfg.slots Kernel.scan_segadd ≡ some slot_add) where
  -- What `level` does.
  pub record Scanned (s : Run R.State) (src m lvl out last : ℕ) (s' : Run R.State) : Type 0 where
    pub launched : List Launch
    pub valid : IsValid s'.case
    pub grows : Grows s.case s'.case
    pub same_gold : s'.case.gold ≡ s.case.gold
    pub listed : s'.case.launches ≡ s.case.launches ++ launched
    pub plan : SegmentsBy s'.case cfg.lanes rows slot slot_add src m lvl launched out last
    pub zeroed : Holds s'.case out (replicate m (pos 0))

  -- A level of more than one segment: the levels above it, between its two launches.
  more-Scanned :
      {src m lvl out tot tsc last : ℕ} (r : ℕ) {s s3 s4 s5 : Run R.State}
      → IsSegment cfg.lanes rows m r
      → 1 < segments cfg.lanes m r
      → Opened s
          (replicate m (pos 0))
          out
          (numbered "seg" lvl)
          slot
          (ints (src ∷ out ∷ tot ∷ r ∷ []))
          (cfg.lanes * segments cfg.lanes m r)
          0
          s3
      → Scanned s3 tot (round_up (segments cfg.lanes m r) cfg.lanes) (lvl + 1) tsc last s4
      → Launches s4
          (numbered "segadd" last)
          slot_add
          (ints (out ∷ tsc ∷ r ∷ []))
          (cfg.lanes * segments cfg.lanes m r)
          0
          s5
      → Scanned s src m lvl out (last + 1) s5
  more-Scanned {src} {m} {lvl} {out} {tot} {tsc} {last} r {s} seg many O S M =
      let up = Grows-trans S.grows M.grows in
      let x = seg_launch lvl slot O.p (cfg.lanes * segments cfg.lanes m r) in
      let y = segadd_launch last slot_add M.block (cfg.lanes * segments cfg.lanes m r) in
      record {
        launched = x ∷ S.launched ++ y ∷ [];
        valid = M.valid;
        grows = Grows-trans O.grows up;
        same_gold = M.same_gold ∙ S.same_gold ∙ O.same_gold;
        listed = listed_around s.case.launches x S.launched y O.listed S.listed M.listed;
        plan =
            more_segments r tot tsc O.p M.block last S.launched seg many (IsBlock-Grows O.block up)
              (SegmentsBy-Grows S.plan M.grows) (record { holds = M.holds });
        zeroed = Holds-Grows out (replicate m (pos 0)) O.first up;
      }

  pub seg_level-Ensures :
      (fuel src m lvl : ℕ) (s : Run R.State)
      → m < fuel
      → cfg.lanes ≤ m
      → m % cfg.lanes ≡ 0
      → IsValid s.case
      → Ensures
          (λ (out, last) s'. Scanned s src m lvl out last s')
          (seg_level R cfg rows fuel src m lvl s)
  unfolding seg_level
  seg_level-Ensures zero src m lvl s h full whole v = elim h [ ]
  seg_level-Ensures (suc fuel) src m lvl s h full whole v =
      let (r, e, seg) =
        segment_rows-IsSegment cfg.lanes rows m (omega arith) some_rows full whole in
      Ensures-run _ (lift_run s e) (
        Ensures-bind (alloc_words-Ensures m none s v (length-replicate m (pos 0))) λ out s1 A.
          Ensures-bind (alloc_words-Ensures _ none s1 A.valid (length-replicate _ (pos 0)))
            λ tot s2 B.
              Ensures-bind
                (launch-Ensures cfg (numbered "seg" lvl) Kernel.scan_seg _ _ 0 slot s2 B.valid
                  found)
                λ _ s3 L.
                  let O = opened A B L in
                  elim (Bool-cases (ltb 1 (segments cfg.lanes m r))) [
                    | inl many ↦
                        let (smaller, least, line) =
                          totals cfg.lanes m r lanes seg.positive seg.whole (ground arith) in
                        rw (many) (
                          Ensures-bind
                            (seg_level-Ensures fuel tot
                              (round_up (segments cfg.lanes m r) cfg.lanes) (lvl + 1) s3
                              (omega (arith, smaller)) least line L.valid)
                            λ (tsc, last) s4 S.
                              Ensures-bind
                                (launch-Ensures cfg (numbered "segadd" last) Kernel.scan_segadd _ _
                                  0 slot_add s4 S.valid found_add)
                                λ _ s5 M. ensures (more-Scanned r seg (ground arith) O S M))
                    | inr few ↦ rw few (
                        ensures (record {
                          launched = seg_launch lvl slot O.p _ ∷ [];
                          valid = O.valid;
                          grows = O.grows;
                          same_gold = O.same_gold;
                          listed = O.listed;
                          plan = one_segment r tot O.p seg (ground arith) O.block;
                          zeroed = O.first;
                        }))
                  ])
