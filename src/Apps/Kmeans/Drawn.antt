-- ===== src/Apps/Kmeans/Drawn.antt =====
-- The points and the centroids that kmeans of sim/gen_apps.py draws.
use mathlib.Core.Path.{subst}
use simtix.Base.{
  le→leb, ℕ, ◌^◌, ◌≤◌, ◌<◌, ◌≡◌, refl, sym, ◌∙◌, arith, List, map, some, length, length-map,
  length-replicate, get_elem?, get_or,
}
use simtix.Random.{Rng, IsRandom}
use simtix.Apps.Gen.{Run, draw, draws, assert, sample, traverse}
use simtix.Apps.Logic.{length-draws}
use simtix.Apps.Loops.{traverse_get}
use simtix.Apps.Kmeans.Tally.{Sums, start, tally}
use simtix.Apps.Kmeans.Totals.{Tallies, tally-Tallies}

module _ (R : Rng) (npts k : ℕ) (s : R.State) where
  -- What is drawn from a state: the points, and the indices of the points that start as centroids.
  abbrev pub drawn_x : List ℕ
  drawn_x = (draws npts (R.randrange (2 ^ 14)) s).0

  abbrev after_x : R.State
  after_x = (draws npts (R.randrange (2 ^ 14)) s).1

  abbrev pub drawn_y : List ℕ
  drawn_y = (draws npts (R.randrange (2 ^ 14)) after_x).0

  abbrev after_y : R.State
  after_y = (draws npts (R.randrange (2 ^ 14)) after_x).1

  abbrev drawn_seeds : List ℕ
  drawn_seeds = (R.sample npts k after_y).0

  abbrev pub picked : List ℕ → List ℕ
  picked l = map (λ (i : ℕ). get_or l i 0) drawn_seeds

pub tally-start :
    (cx cy px py : List ℕ) (k : ℕ)
    → length cx ≡ k
    → length cy ≡ k
    → 0 < k
    → length px ≡ length py
    → (t : Sums) × (tally cx cy px py (start k) ≡ some t) × Tallies cx cy px py (start k) t t.assign
tally-start cx cy px py k lx ly more len =
    let (t, bs, e, p) =
      tally-Tallies cx cy (lx ∙ sym ly) (omega (arith, lx)) px py (start k) len (record {
        len_sx = length-replicate k 0 ∙ sym lx;
        len_sy = length-replicate k 0 ∙ sym lx;
        len_cn = length-replicate k 0 ∙ sym lx;
      }) in
    (t, e, subst (λ l. Tallies cx cy px py (start k) t l) (sym p.assigned) p)

module _ (R : Rng) (law : IsRandom R) (npts k : ℕ) (s : R.State) (le : k ≤ npts) where
  pub length-drawn_x : length (drawn_x R npts k s) ≡ npts
  length-drawn_x = length-draws npts (R.randrange (2 ^ 14)) s

  pub length-drawn_y : length (drawn_y R npts k s) ≡ npts
  length-drawn_y = length-draws npts (R.randrange (2 ^ 14)) _

  pub length-picked : (l : List ℕ) → length (picked R npts k s l) ≡ k
  length-picked l = length-map _ (drawn_seeds R npts k s) ∙ law.length-sample npts k _ le

  pub picks :
      (l : List ℕ)
      → length l ≡ npts
      → traverse (get_elem? l) (drawn_seeds R npts k s) ≡ some (picked R npts k s l)
  picks l len =
      traverse_get l (drawn_seeds R npts k s) λ i m. omega (arith, law.sample-lt npts k i _ le m)

  pub sample-step :
      (r : Run R.State)
      → r.rng ≡ after_y R npts k s
      → sample R npts k r
        ≡ some (drawn_seeds R npts k s, record r { rng = (R.sample npts k (after_y R npts k s)).1 })
  unfolding sample assert draw
  sample-step r e = rw (le→leb k npts le, e) refl
