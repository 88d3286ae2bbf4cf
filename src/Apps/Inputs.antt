-- ===== src/Apps/Inputs.antt =====
-- The FP32 inputs that the generators draw (rand_f32 of sim/gen_apps.py).
use simtix.Base.{ℕ, ◌≤◌, ◌≡◌, List, some, get_elem?}
use simtix.Random.{Rng, IsRandom, rand_f32}
use simtix.Fp.Units.{units}
use simtix.Fp.Accumulate.{one}
use simtix.Apps.Gen.{draws}
use simtix.Apps.Loops.{draws-each}

-- Every item is an FP32 word between -1.0 and 1.0.
abbrev pub AllUnit : List ℕ → Type 0
AllUnit l = (i w : ℕ) → get_elem? l i ≡ some w → units w ≤ units one

pub draws-AllUnit :
    (R : Rng) → IsRandom R → (n : ℕ) (s : R.State) → AllUnit (draws n (rand_f32 R) s).0
unfolding rand_f32
draws-AllUnit R law n s = draws-each (λ w. units w ≤ units one) (rand_f32 R) law.uniform-le n s
