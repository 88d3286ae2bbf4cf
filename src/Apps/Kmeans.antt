-- ===== src/Apps/Kmeans.antt =====
-- One step of k-means in sim/gen_apps.py (kmeans): each point goes to its nearest centroid, and each
-- centroid sums its points.
pub mod Tally
pub mod Nearest
pub mod Drawn
pub mod Checks
pub mod Totals
pub mod Result
use Prim.Native.String.{String}
use simtix.Base.{
  ℕ, zero, suc, ◌+◌, ◌-◌, ◌*◌, ◌/◌, ◌%◌, ◌^◌, List, [], ◌∷◌, ◌++◌, Option, none, some, Bool, ◌&&◌,
  ◌==◌, leb, if◌then◌else◌, get_elem?, set, replicate, length,
}
use simtix.Base.Int.{ℤ, pos, pos_part, neg_part, ◌-ℤ◌, ints}
use simtix.Kernels.{Kernel}
use simtix.Ddr.Case.{Case, tag, new_case}
use simtix.Random.{Rng}
use simtix.Apps.Kmeans.Tally.{Sums, start, tally}
use simtix.Apps.Gen.{
  Config, Gen, ◌>>=◌, ◌>>◌, lift, assert, draw, draws, alloc_list, alloc_zeros, alloc_words, launch,
  expect, build, traverse, sample,
}

module _ (R : Rng) (cfg : Config) where
  unfoldable pub kmeans_launch : ℕ → ℕ → Bool → List ℤ → Gen R.State (Unit {0})
  kmeans_launch npts k two params =
      if two
      then assert (npts % 2 == 0 && k % 2 == 0)
        >> launch cfg (tag "kmeans") Kernel.kmeans_u params (npts / 2) 0
      else launch cfg (tag "kmeans") Kernel.kmeans params npts 0

  unfoldable pub kmeans_body : ℕ → ℕ → Bool → Gen R.State (Unit {0})
  kmeans_body npts k two = do
    px ← draw (draws npts (R.randrange (2 ^ 14)))
    py ← draw (draws npts (R.randrange (2 ^ 14)))
    seeds ← sample R npts k
    cx ← lift (traverse (get_elem? px) seeds)
    cy ← lift (traverse (get_elem? py) seeds)
    a_px ← alloc_list px npts
    a_py ← alloc_list py npts
    a_cx ← alloc_list cx k
    a_cy ← alloc_list cy k
    a_as ← alloc_zeros npts
    a_sx ← alloc_zeros k
    a_sy ← alloc_zeros k
    a_cn ← alloc_zeros k
    kmeans_launch npts k two (ints (a_px ∷ a_py ∷ a_cx ∷ a_cy ∷ k ∷ a_as ∷ a_sx ∷ a_sy ∷ a_cn ∷ []))
    t ← lift (tally cx cy px py (start k))
    expect a_as (ints t.assign)
    expect a_sx (ints t.sx)
    expect a_sy (ints t.sy)
    expect a_cn (ints t.cn)

  unfoldable pub kmeans : ℕ → ℕ → Bool → R.State → Option (Case × R.State)
  unfolding kmeans_body
  kmeans npts k two =
      build R (kmeans_body npts k two)
        (new_case (if two then "kmeansu" else "kmeans") (npts ∷ k ∷ []))
