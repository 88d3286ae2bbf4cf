-- ===== src/Kernels.antt =====
-- The kernel images and their places in the instruction RAM (place_kernels of sim/gen_apps.py).
use simtix.Base.{
  ℕ, ◌+◌, ◌-◌, ◌*◌, ◌/◌, ◌≤◌, ◌<◌, List, [], ◌∷◌, map, length, Option, Dict, lookup, insert, leb,
}
use simtix.Base.Partial.{◌>>=◌, ◌>>◌, guard}
use mathlib.Core.Option.{some}
pub mod Packing
pub mod Tight

-- KERNELS
pub data Kernel : Type 0 where
  gemm spmv stencil kmeans bfs scan scan_add mlp gemm_rb : Kernel
  scan_seg scan_segadd stencil_rb kmeans_u zbtest spmv_z : Kernel

-- Its place in KERNELS, by which the dict SLOTS is keyed here.
abbrev pub kernel_id : Kernel → ℕ
kernel_id gemm = 0
kernel_id spmv = 1
kernel_id stencil = 2
kernel_id kmeans = 3
kernel_id bfs = 4
kernel_id scan = 5
kernel_id scan_add = 6
kernel_id mlp = 7
kernel_id gemm_rb = 8
kernel_id scan_seg = 9
kernel_id scan_segadd = 10
kernel_id stencil_rb = 11
kernel_id kmeans_u = 12
kernel_id zbtest = 13
kernel_id spmv_z = 14

abbrev pub kernels : List Kernel
kernels =
    gemm ∷ spmv ∷ stencil ∷ kmeans ∷ bfs ∷ scan ∷ scan_add ∷ mlp ∷ gemm_rb ∷ scan_seg ∷ scan_segadd
    ∷ stencil_rb ∷ kmeans_u ∷ zbtest ∷ spmv_z ∷ []

abbrev pub iram_words : ℕ
iram_words = 1024

-- `-(-n // d)`
abbrev pub ceil_div : ℕ → ℕ → ℕ
ceil_div n d = (n + d - 1) / d

-- The loop of `place_kernels`: `words` gives the number of words in the file of a kernel.
unfoldable pub place_from : (Kernel → ℕ) → ℕ → List Kernel → Dict ℕ → ℕ × Dict ℕ
place_from words s [] slots = (s, slots)
place_from words s (k ∷ ks) slots =
    place_from words (s + ceil_div (words k) 16) ks (insert (kernel_id k) s slots)

unfoldable pub place_kernels : (Kernel → ℕ) → Option (Dict ℕ)
place_kernels words =
    let (s, slots) = place_from words 0 kernels [] in guard (leb (16 * s) iram_words) >> some slots

-- SLOTS[kernel]
abbrev pub slot_of : Dict ℕ → Kernel → Option ℕ
slot_of slots k = lookup (kernel_id k) slots
