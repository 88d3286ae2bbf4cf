-- ===== src/Apps/Mlp/Started.antt =====
-- One layer's launch in mlp of sim/gen_apps.py: what it draws, allocates and launches.
use simtix.Base.{
  ℕ, ◌+◌, ◌*◌, ◌/◌, ◌≤◌, ◌<◌, ◌≡◌, refl, ap, ◌∙◌, arith, List, [], ◌∷◌, ◌++◌, Bool, none, some,
  if◌then◌else◌, length, length-replicate, get_elem?,
}
use simtix.Base.Int.{ℤ, ints, pos}
use simtix.Kernels.{Kernel, slot_of}
use simtix.Ddr.{init_or_zeros}
use simtix.Ddr.Case.{Launch, numbered}
use simtix.Random.{Rng, IsRandom}
use simtix.Apps.Gen.{Config, Run, draw, draws}
use simtix.Apps.Logic.{
  Holds, IsBlock, IsValid, Grows, Grows-trans, Holds-Grows, Ensures, ensures, Ensures-bind,
  Ensures-run, lift_run, alloc_words-Ensures, launch-Ensures, length-ints,
}
use simtix.Apps.Quant.Pack.{IsInt8}
use simtix.Apps.Mlp.{padded}
use simtix.Apps.Mlp.Layers.{layer_params, layer_launch, weight_row}
use simtix.Apps.Mlp.Matrix.{IsMatrix-weaken, All, IsMatrix, IsWeight}
use simtix.Apps.Mlp.Packed.{IsPackedWord, pack_weights-CollectsRows}
use simtix.Apps.Mlp.Drawn.{PaddedFrom, weights-IsMatrix}

-- The words of packed weights.
pub record ArePacked (w : List (List ℤ)) (k npad : ℕ) (words : List ℕ) : Type 0 where
  pub count : length words ≡ k / 4 * npad
  pub each :
      (kk col : ℕ)
      → kk < k / 4
      → col < npad
      → (v : ℕ) × (get_elem? words (kk * npad + col) ≡ some v) × IsPackedWord w (0 + kk) col v

abbrev pub layer_entry : ℕ → ℕ → ℕ → ℕ → ℕ → Launch
layer_entry batch slot li npad p = record {
  tag = numbered "layer" li;
  slot = slot;
  params = p;
  threads = batch * npad;
  blk = 0;
}

abbrev pub outputs : ℕ → ℕ → Bool → ℕ
outputs batch npad last = if last then batch * npad else batch * npad / 4

module _ (R : Rng) (law : IsRandom R) (cfg : Config) (batch slot : ℕ)
    (found : slot_of cfg.slots Kernel.mlp ≡ some slot) where
  pub record Started (r : Run R.State) (li px k n : ℕ) (last : Bool) (w : List (List ℤ)) (po : ℕ)
      (r' : Run R.State) : Type 0 where
    pub p : ℕ
    pub pw : ℕ
    pub words : List ℕ
    pub drawn : w ≡ (draws k (weight_row R n 0 (padded n)) r.rng).0
    pub matrix : IsMatrix IsWeight k (padded n) w
    pub padding : All (PaddedFrom 0 n) w
    pub packs : ArePacked w k (padded n) words
    pub held : Holds r'.case pw (ints words)
    pub block : IsBlock r'.case p (layer_params px pw po k (padded n) (if last then 0 else 1))
    pub listed : r'.case.launches ≡ r.case.launches ++ layer_entry batch slot li (padded n) p ∷ []
    pub zeros : Holds r'.case po (init_or_zeros (outputs batch (padded n) last) none)
    pub above : r.case.img.top ≤ po
    pub room : po + 4 * outputs batch (padded n) last ≤ r'.case.img.top
    pub grows : Grows r.case r'.case
    pub same_gold : r'.case.gold ≡ r.case.gold
    pub rng : r'.rng ≡ (draws k (weight_row R n 0 (padded n)) r.rng).1
    pub valid : IsValid r'.case

  pub layer_launch-Ensures :
      (li px k n : ℕ) (last : Bool) (r : Run R.State)
      → IsValid r.case
      → Ensures
          (λ (a : List (List ℤ) × ℕ) r'. Started r li px k n last a.0 a.1 r')
          (layer_launch R cfg batch li px k n last r)
  unfolding layer_launch draw
  layer_launch-Ensures li px k n last r v =
      let w = (draws k (weight_row R n 0 (padded n)) r.rng).0 in
      let (matrix, padding) = weights-IsMatrix R law k n (padded n) r.rng in
      let W = pack_weights-CollectsRows w k (padded n) (
        IsMatrix-weaken IsWeight IsInt8 k (padded n) w (λ v b. (omega arith, omega arith))
          matrix) in
      let outs = outputs batch (padded n) last in
      Ensures-run _ (lift_run _ W.made) (
        Ensures-bind
          (alloc_words-Ensures (length W.items) (some (ints W.items)) _ v (length-ints W.items))
          λ pw r1 A.
            Ensures-bind (alloc_words-Ensures outs none r1 A.valid (length-replicate outs (pos 0)))
              λ po r2 B.
                Ensures-bind
                  (launch-Ensures cfg (numbered "layer" li) Kernel.mlp
                    (layer_params px pw po k (padded n) (if last then 0 else 1)) (batch * padded n)
                    0 slot r2 B.valid found)
                  λ _ r3 L. ensures (record {
                    p = L.block;
                    pw = pw;
                    words = W.items;
                    drawn = refl;
                    matrix = matrix;
                    padding = padding;
                    packs = record { count = W.count; each = W.each };
                    held = Holds-Grows pw (ints W.items) A.holds (Grows-trans B.grows L.grows);
                    block = record { holds = L.holds };
                    listed =
                        L.listed
                        ∙ ap
                            (λ (l : List Launch).
                              l ++ layer_entry batch slot li (padded n) L.block ∷ [])
                            (B.same_launches ∙ A.same_launches);
                    zeros = Holds-Grows po (init_or_zeros outs none) B.holds L.grows;
                    above = omega (arith, A.grows.top_le, B.placed);
                    room = omega (arith, B.room, L.grows.top_le, length-replicate outs (pos 0));
                    grows = Grows-trans A.grows (Grows-trans B.grows L.grows);
                    same_gold = L.same_gold ∙ B.same_gold ∙ A.same_gold;
                    rng = L.same_rng ∙ B.same_rng ∙ A.same_rng;
                    valid = L.valid;
                  }))
