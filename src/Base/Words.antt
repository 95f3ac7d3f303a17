-- ===== src/Base/Words.antt =====
-- `usize` and `u64` of a 64-bit target, with the saturating operations of Rust's standard library.
use Prim.Native.Nat.{ℕ, ◌+◌, ◌-◌, ◌*◌, ◌^◌, ◌≤◌, min}
use mathlib.Core.Path.{◌≡◌}
use native.Mathlib.Omega.{arith}

abbrev pub usize_max : ℕ
usize_max = 2 ^ 64 - 1

unfoldable pub saturating_add : ℕ → ℕ → ℕ
saturating_add a b = min (a + b) usize_max

unfoldable pub saturating_mul : ℕ → ℕ → ℕ
saturating_mul a b = min (a * b) usize_max

abbrev pub saturating_sub : ℕ → ℕ → ℕ
saturating_sub a b = a - b

pub saturating_add_exact : (a b : ℕ) → a + b ≤ usize_max → saturating_add a b ≡ a + b
unfolding saturating_add
saturating_add_exact a b h = omega arith

pub saturating_mul_exact : (a b : ℕ) → a * b ≤ usize_max → saturating_mul a b ≡ a * b
unfolding saturating_mul
saturating_mul_exact a b h = omega arith
