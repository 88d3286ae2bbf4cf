-- ===== src/Base/Arith.antt =====
-- Arithmetic that the linear tactic does not do.
use native.Mathlib.Nat.{mul-le-mul_right}
use Prim.Native.Nat.{ℕ, ◌+◌, ◌*◌, ◌%◌, ◌<◌}
use mathlib.Core.Path.{◌≡◌}
use native.Mathlib.Omega.{arith}
use native.Mathlib.Nat.{div-add-mod}

-- Two numbers less than `n` apart that agree modulo `n` are equal.
pub mod_close : (n x y : ℕ) → x < y + n → y < x + n → x % n ≡ y % n → x ≡ y
mod_close n x y p q e = grind (arith, div-add-mod x n, div-add-mod y n)

-- An entry of a matrix lies within its words.
pub index_lt : (r c m n : ℕ) → r < m → c < n → r * n + c < m * n
index_lt r c m n hr hc = omega (arith, mul-le-mul_right n hr)
