-- ===== src/Common/Words.antt =====
-- Machine words as native numbers. A release build wraps.
use Prim.Native.Nat.{ℕ, ◌+◌, ◌*◌, ◌/◌, ◌%◌, ◌^◌}
use mathlib.Core.Path.{◌≡◌}
use native.Mathlib.Omega.{arith}

-- `a + b` of two `u64`
unfoldable pub add64 : ℕ → ℕ → ℕ
add64 a b = (a + b) % 2 ^ 64

-- `a * b` of two `u64`
unfoldable pub mul64 : ℕ → ℕ → ℕ
mul64 a b = (a * b) % 2 ^ 64

-- `Duration::from_secs`, in nanoseconds
abbrev pub from_secs : ℕ → ℕ
from_secs s = s * 1_000_000_000

-- `Duration::as_secs`
abbrev pub as_secs : ℕ → ℕ
as_secs d = d / 1_000_000_000

-- a duration in whole seconds survives the way there and back
pub as_secs-from_secs : (s : ℕ) → as_secs (from_secs s) ≡ s
as_secs-from_secs s = omega arith
