-- ===== src/Apps/Scan/Levels.antt =====
-- The launches of a scan: one for each level, and one for each level but the last that adds the
-- block totals back. The levels shrink, so they end.
use native.Mathlib.Nat.{mul-le-mul, div-add-mod}
use mathlib.Core.Path.{subst₂}
use simtix.Base.{
  ℕ, zero, suc, ◌+◌, ◌-◌, ◌*◌, ◌/◌, ◌≤◌, ◌<◌, ◌≡◌, sym, ◌∙◌, arith, List, [], ◌∷◌, ◌++◌, none, some,
  ltb, Bool-cases, inl, inr, replicate, length-replicate,
}
use simtix.Base.Int.{pos, ints}
use simtix.Kernels.{Kernel, slot_of}
use simtix.Ddr.Case.{Case, Launch, numbered}
use simtix.Random.{Rng}
use simtix.Apps.Gen.{Config, Run}
use simtix.Apps.Logic.{
  Holds, IsBlock, IsBlock-Grows, IsValid, Grows, Grows-trans, Holds-Grows, Ensures, ensures,
  Ensures-bind, alloc_words-Ensures, Launches, launch-Ensures, Opened, opened, listed_around,
}
use simtix.Apps.Scan.{level, round_up, block}

-- A launch of level `lvl`, whose parameter block is at p.
abbrev scan_launch : ℕ → ℕ → ℕ → ℕ → Launch
scan_launch lvl slot p m = record {
  tag = numbered "scan" lvl;
  slot = slot;
  params = p;
  threads = m;
  blk = 2;
}

abbrev add_launch : ℕ → ℕ → ℕ → ℕ → Launch
add_launch lvl slot p m = record {
  tag = numbered "add" lvl;
  slot = slot;
  params = p;
  threads = m;
  blk = 0;
}

-- In the case c, with blocks of b threads: the launches that scan the m words at `src` into `out`,
-- numbered from `lvl` to `last`.
pub data ScansBy (c : Case) (b slot slot_add : ℕ) : ℕ → ℕ → ℕ → List Launch → ℕ → ℕ → Type 0 where
  one_block :
      {src m lvl out : ℕ} (bs p : ℕ)
      → m / b ≤ 1
      → IsBlock c p (ints (src ∷ out ∷ bs ∷ []))
      → ScansBy c b slot slot_add src m lvl (scan_launch lvl slot p m ∷ []) out (lvl + 1)
  more_blocks :
      {src m lvl out : ℕ} (bs bsc p q last : ℕ) (ls : List Launch)
      → 1 < m / b
      → IsBlock c p (ints (src ∷ out ∷ bs ∷ []))
      → ScansBy c b slot slot_add bs (round_up (m / b) b) (lvl + 1) ls bsc last
      → IsBlock c q (ints (out ∷ bsc ∷ []))
      → ScansBy c b slot slot_add src m lvl
          (scan_launch lvl slot p m ∷ ls ++ add_launch last slot_add q m ∷ [])
          out
          (last + 1)

pub ScansBy-Grows :
    {c d : Case} {b slot slot_add src m lvl out last : ℕ} {ls : List Launch}
    → ScansBy c b slot slot_add src m lvl ls out last
    → Grows c d
    → ScansBy d b slot slot_add src m lvl ls out last
ScansBy-Grows (one_block bs p few h) g = one_block bs p few (IsBlock-Grows h g)
ScansBy-Grows (more_blocks bs bsc p q last ls many h rest k) g =
    more_blocks bs bsc p q last ls many (IsBlock-Grows h g) (ScansBy-Grows rest g)
      (IsBlock-Grows k g)

above : (k n : ℕ) → k ≤ n → (p : ℕ) × (n ≡ k + p)
above k n h = (n - k, omega arith)

minus_one : (p : ℕ) → 2 + p - 1 ≡ 1 + p
minus_one p = omega arith

pub product_lem : (x y : ℕ) → 2 ≤ x → 2 ≤ y → (x - 1) * (y - 1) + x + y ≡ x * y + 1
product_lem x y hx hy =
    let (p, e) = above 2 x hx in
    let (q, f) = above 2 y hy in
    subst₂ (λ x y. (x - 1) * (y - 1) + x + y ≡ x * y + 1) (sym e) (sym f)
      (rw (minus_one p, minus_one q) (omega arith))

-- The next level is smaller.
round_up_smaller : (m b : ℕ) → 2 ≤ b → 1 < m / b → round_up (m / b) b < m
round_up_smaller m b hb hm = omega (
  arith,
  div-add-mod m b,
  div-add-mod (m / b + b - 1) b,
  mul-le-mul {n₁ = 1} {m₁ = 1} {n₂ = m / b - 1} {m₂ = b - 1} (omega arith) (omega arith),
  product_lem (m / b) b hm hb,
)

module _ (R : Rng) (cfg : Config) (slot slot_add : ℕ) (lanes : 0 < cfg.lanes)
    (found : slot_of cfg.slots Kernel.scan ≡ some slot)
    (found_add : slot_of cfg.slots Kernel.scan_add ≡ some slot_add) where
  -- What `level` does.
  pub record Scanned (r : Run R.State) (src m lvl out last : ℕ) (r' : Run R.State) : Type 0 where
    pub launched : List Launch
    pub valid : IsValid r'.case
    pub grows : Grows r.case r'.case
    pub same_gold : r'.case.gold ≡ r.case.gold
    pub listed : r'.case.launches ≡ r.case.launches ++ launched
    pub plan : ScansBy r'.case (block cfg) slot slot_add src m lvl launched out last
    pub zeroed : Holds r'.case out (replicate m (pos 0))

  -- A level of more than one block: the levels above it, between its two launches.
  more-Scanned :
      {src m lvl out bs bsc last : ℕ} {r r3 r4 r5 : Run R.State}
      → 1 < m / block cfg
      → Opened r
          (replicate m (pos 0))
          out
          (numbered "scan" lvl)
          slot
          (ints (src ∷ out ∷ bs ∷ []))
          m
          2
          r3
      → Scanned r3 bs (round_up (m / block cfg) (block cfg)) (lvl + 1) bsc last r4
      → Launches r4 (numbered "add" last) slot_add (ints (out ∷ bsc ∷ [])) m 0 r5
      → Scanned r src m lvl out (last + 1) r5
  more-Scanned {src} {m} {lvl} {out} {bs} {bsc} {last} {r} many O S M =
      let up = Grows-trans S.grows M.grows in
      let x = scan_launch lvl slot O.p m in
      let y = add_launch last slot_add M.block m in
      record {
        launched = x ∷ S.launched ++ y ∷ [];
        valid = M.valid;
        grows = Grows-trans O.grows up;
        same_gold = M.same_gold ∙ S.same_gold ∙ O.same_gold;
        listed = listed_around r.case.launches x S.launched y O.listed S.listed M.listed;
        plan =
            more_blocks bs bsc O.p M.block last S.launched many (IsBlock-Grows O.block up)
              (ScansBy-Grows S.plan M.grows) (record { holds = M.holds });
        zeroed = Holds-Grows out (replicate m (pos 0)) O.first up;
      }

  pub level-Ensures :
      (fuel src m lvl : ℕ) (r : Run R.State)
      → m < fuel
      → IsValid r.case
      → Ensures (λ (out, last) r'. Scanned r src m lvl out last r') (level R cfg fuel src m lvl r)
  unfolding level
  level-Ensures zero src m lvl r h v = elim h [ ]
  level-Ensures (suc fuel) src m lvl r h v =
      Ensures-bind (alloc_words-Ensures m none r v (length-replicate m (pos 0))) λ out r1 A.
        Ensures-bind (alloc_words-Ensures _ none r1 A.valid (length-replicate _ (pos 0))) λ bs r2 B.
          Ensures-bind
            (launch-Ensures cfg (numbered "scan" lvl) Kernel.scan _ m 2 slot r2 B.valid found)
            λ _ r3 L.
              let O = opened A B L in
              elim (Bool-cases (ltb 1 (m / block cfg))) [
                | inl many ↦ rw (many) (
                    Ensures-bind
                      (level-Ensures fuel bs (round_up (m / block cfg) (block cfg)) (lvl + 1) r3
                        (omega (arith, round_up_smaller m (block cfg) (omega arith) (ground arith)))
                        L.valid)
                      λ (bsc, last) r4 S.
                        Ensures-bind
                          (launch-Ensures cfg (numbered "add" last) Kernel.scan_add _ m 0 slot_add
                            r4 S.valid found_add)
                          λ _ r5 M. ensures (more-Scanned (ground arith) O S M))
                | inr few ↦ rw few (
                    ensures (record {
                      launched = scan_launch lvl slot O.p m ∷ [];
                      valid = O.valid;
                      grows = O.grows;
                      same_gold = O.same_gold;
                      listed = O.listed;
                      plan = one_block bs O.p (ground arith) O.block;
                      zeroed = O.first;
                    }))
              ]
