-- ===== src/Base/Words.antt =====
-- 64-bit words.
use Prim.Native.Nat.{ℕ, ◌+◌, ◌%◌, ◌^◌}
use mathlib.Core.Bool.{Bool}
use telecom_platform.Base.Tests.{leb, ltb}

-- An `int` or `int64` is its bit pattern, below 2 ^ 64. `bias` maps the signed order to that of ℕ.
abbrev pub u64 : ℕ → ℕ
u64 n = n % 2 ^ 64

abbrev pub bias : ℕ → ℕ
bias n = (n + 2 ^ 63) % 2 ^ 64

-- `a <= b` and `a < b` on `int`.
abbrev pub int_leb : ℕ → ℕ → Bool
int_leb a b = leb (bias a) (bias b)

abbrev pub int_ltb : ℕ → ℕ → Bool
int_ltb a b = ltb (bias a) (bias b)
