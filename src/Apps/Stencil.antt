-- ===== src/Apps/Stencil.antt =====
-- The five-point stencil of sim/gen_apps.py (stencil): sweeps between two grids, a launch for each.
pub mod Sweep
pub mod Bounded
pub mod Sweeps
pub mod Result
use Prim.Native.String.{String}
use simtix.Base.{
  ℕ, zero, suc, ◌+◌, ◌-◌, ◌*◌, ◌/◌, ◌%◌, List, [], ◌∷◌, ◌++◌, Option, none, some, Bool, ◌&&◌, ◌==◌,
  if◌then◌else◌, length,
}
use simtix.Base.Int.{ℤ, pos, sub_ℕ, ints}
use simtix.Base.Pow.{bit_length}
use simtix.Kernels.{Kernel}
use simtix.Ddr.Case.{Case, numbered, new_case}
use simtix.Random.{Rng, rand_f32}
use simtix.Apps.Stencil.Sweep.{c0, c1, sweep}
use simtix.Apps.Gen.{
  Config, Gen, ◌>>=◌, ◌>>◌, pure, lift, assert, draw, draws, alloc_list, alloc_words, launch,
  expect, build,
}

-- `bufs[t % 2]`
abbrev pub buffer : ℕ → ℕ → ℕ → ℕ
buffer a b t = if t % 2 == 0 then a else b

-- The distance of two rows: a line of padding at each side.
abbrev pub stride : Config → ℕ → ℕ
stride cfg w = w + 2 * cfg.lanes

-- The parameter block of the sweep t; the strip kernel takes its rows too.
abbrev pub stencil_params : Config → ℕ → ℕ → ℕ → ℕ → ℕ → List ℤ
stencil_params cfg w rows a b t =
    pos (buffer a b t)
    ∷ pos (buffer a b (t + 1))
    ∷ sub_ℕ (bit_length w) 1
    ∷ pos (stride cfg w)
    ∷ pos c0
    ∷ pos c1
    ∷ (if rows == 0 then [] else pos rows ∷ [])

module _ (R : Rng) (cfg : Config) (h w rows : ℕ) where
  unfoldable pub stencil_launch : ℕ → ℕ → ℕ → Gen R.State (Unit {0})
  stencil_launch a b t =
      if rows == 0
      then launch cfg (numbered "stencil" t) Kernel.stencil (stencil_params cfg w rows a b t)
          (h * w) 0
      else assert (rows % 2 == 0 && h % rows == 0)
        >> launch cfg (numbered "stencil" t) Kernel.stencil_rb (stencil_params cfg w rows a b t)
            (h / rows * w) 0

  -- The sweeps from t on, over the grid `cur`.
  unfoldable pub sweeps_from : ℕ → ℕ → ℕ → ℕ → List ℕ → Gen R.State (List ℕ)
  unfolding stencil_launch
  sweeps_from zero a b t cur = pure cur
  sweeps_from (suc left) a b t cur = stencil_launch a b t >>= λ _.
      lift (sweep cfg.lanes (stride cfg w) h w cur) >>= λ nxt. sweeps_from left a b (t + 1) nxt

  unfoldable pub stencil_body : ℕ → Gen R.State (Unit {0})
  unfolding sweeps_from
  stencil_body sweeps = do
    grid ← draw (draws ((h + 2) * stride cfg w) (rand_f32 R))
    a ← alloc_list grid (length grid)
    b ← alloc_list grid (length grid)
    cur ← sweeps_from sweeps a b 0 grid
    expect (buffer a b sweeps) (ints cur)

  unfoldable pub stencil : ℕ → R.State → Option (Case × R.State)
  unfolding stencil_body
  stencil sweeps =
      build R (stencil_body sweeps)
        (new_case (if rows == 0 then "stencil" else "stencilrb") (h ∷ w ∷ sweeps ∷ []))
