-- ===== src/Base/Words.antt =====
-- Machine words as natural numbers: `uint32_t` subtraction wraps.
use Prim.Native.Nat.{ℕ, ◌+◌, ◌-◌, ◌%◌}

abbrev pub u32_mod : ℕ
u32_mod = 0x1_0000_0000

-- `static_cast<uint32_t>(now - since)`.
abbrev pub sub32 : ℕ → ℕ → ℕ
sub32 now since = (now + u32_mod - since) % u32_mod

-- `a * b` and `a + b` on `uint32_t`.
abbrev pub u32 : ℕ → ℕ
u32 n = n % u32_mod
