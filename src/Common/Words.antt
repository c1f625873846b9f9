-- ===== src/Common/Words.antt =====
-- Machine words: `usize` is 64 bits wide, and its arithmetic wraps.
use Prim.Native.Nat.{ℕ, ◌+◌, ◌-◌, ◌%◌, ◌^◌, ◌≤◌, ◌<◌}
use mathlib.Core.Path.{◌≡◌}
use native.Mathlib.Omega.{arith}

abbrev pub usize_mod : ℕ
usize_mod = 2 ^ 64

unfoldable pub add_usize : ℕ → ℕ → ℕ
add_usize a b = (a + b) % usize_mod

unfoldable pub sub_usize : ℕ → ℕ → ℕ
sub_usize a b = (a + usize_mod - b) % usize_mod

pub add_usize-eq-add : (a b : ℕ) → a + b < usize_mod → add_usize a b ≡ a + b
unfolding add_usize
add_usize-eq-add a b h = omega arith

pub sub_usize-eq-sub : (a b : ℕ) → b ≤ a → a < usize_mod → sub_usize a b ≡ a - b
unfolding sub_usize
sub_usize-eq-sub a b h k = omega arith

unfoldable pub add_u64 : ℕ → ℕ → ℕ
add_u64 a b = (a + b) % 2 ^ 64

unfoldable pub sub_u64 : ℕ → ℕ → ℕ
sub_u64 a b = (a + 2 ^ 64 - b) % 2 ^ 64

abbrev pub u128_mod : ℕ
u128_mod = 2 ^ 128
