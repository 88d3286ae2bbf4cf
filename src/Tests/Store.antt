-- ===== src/Tests/Store.antt =====
-- An example of the on-chip store.
use simtix.Base.{ℕ, zero, suc, ◌≡◌, arith, List, some, replicate, length-replicate}
use simtix.Base.Int.{ℤ, pos}
use simtix.Apps.Quant.Pack.{IsInt8}
use simtix.Apps.Mlp.Matrix.{All, IsRow, IsMatrix}
use simtix.Mnist.{store_image}
use simtix.Mnist.Store.{IsStore, store_image-IsStore}

All-replicate : {A : Type 0} (P : A → Type 0) (a : A) (n : ℕ) → P a → All P (replicate n a)
All-replicate P a zero p = tt
All-replicate P a (suc n) p = (p, All-replicate P a n p)

abbrev filled : ℕ → ℕ → ℤ → List (List ℤ)
filled m n v = replicate m (replicate n v)

filled-IsMatrix : (m n : ℕ) (v : ℤ) → IsInt8 v → IsMatrix IsInt8 m n (filled m n v)
filled-IsMatrix m n v p = (
  length-replicate m (replicate n v),
  All-replicate (IsRow IsInt8 n) (replicate n v) m
      (length-replicate n v, All-replicate IsInt8 v n p),
)

-- Weights of 1 and 3, the prediction 7 for every image, and images of the pixel 90.
store_image-IsStore_example :
    (store : List ℕ) × (store_image
        (filled 784 128 (pos 1))
        (filled 128 10 (pos 3))
        0x3a80_0000
        (replicate 64 7)
        (filled 64 784 (pos 90))
      ≡ some store)
    × IsStore
        (filled 784 128 (pos 1))
        (filled 128 10 (pos 3))
        0x3a80_0000
        (replicate 64 7)
        (filled 64 784 (pos 90))
        store
store_image-IsStore_example =
    store_image-IsStore (filled 784 128 (pos 1)) (filled 128 10 (pos 3)) 0x3a80_0000
      (replicate 64 7) (filled 64 784 (pos 90))
      (filled-IsMatrix 784 128 (pos 1) (omega arith, omega arith))
      (filled-IsMatrix 128 10 (pos 3) (omega arith, omega arith)) (length-replicate {A = ℕ} 64 7)
      (filled-IsMatrix 64 784 (pos 90) (omega arith, omega arith))
