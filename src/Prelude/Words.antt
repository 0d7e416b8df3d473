-- ===== src/Prelude/Words.antt =====
-- Machine words. In a release build u32 arithmetic wraps; a usize is 64 bits wide and counts things
-- in memory, so it does not overflow and stays a plain number.
use Prim.Native.Nat.{ℕ, ◌+◌, ◌-◌, ◌*◌, ◌%◌, ◌≤◌, ◌<◌}
use mathlib.Core.Path.{◌≡◌}
use native.Mathlib.Omega.{arith}

-- 2 ^ 32
abbrev pub u32_mod : ℕ
u32_mod = 4294967296

-- u32 `a + b`
abbrev pub add32 : ℕ → ℕ → ℕ
add32 a b = (a + b) % u32_mod

-- u32 `a - b`
abbrev pub sub32 : ℕ → ℕ → ℕ
sub32 a b = (a + u32_mod - b) % u32_mod

pub sub32_le : (a b : ℕ) → b ≤ a → a < u32_mod → sub32 a b ≡ a - b
sub32_le a b h r = omega arith

pub add32_one : (a : ℕ) → a + 1 < u32_mod → add32 a 1 ≡ a + 1
add32_one a h = omega arith

-- Row s of a table of rows of width w, column a.
pub index_in_range : (w n s a : ℕ) → s < n → a < w → w * s + a < w * n
index_in_range w n s a p q = grind arith
