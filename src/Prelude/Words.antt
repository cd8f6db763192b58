-- ===== src/Prelude/Words.antt =====
-- Unsigned machine words: native numbers that wrap.
use Prim.Native.Nat.{ℕ, ◌+◌, ◌-◌, ◌%◌, ◌^◌, ◌<◌, ◌≤◌}
use mathlib.Core.Path.{◌≡◌}
use native.Mathlib.Omega.{arith}

abbrev pub u8_mod : ℕ
u8_mod = 2 ^ 8

abbrev pub u16_mod : ℕ
u16_mod = 2 ^ 16

abbrev pub u32_mod : ℕ
u32_mod = 2 ^ 32

-- `uint32_t` a + b and a - b.
abbrev pub add32 : ℕ → ℕ → ℕ
add32 a b = (a + b) % u32_mod

abbrev pub sub32 : ℕ → ℕ → ℕ
sub32 a b = (a + u32_mod - b) % u32_mod

pub sub32-sub : (a b : ℕ) → b ≤ a → a < u32_mod → sub32 a b ≡ a - b
sub32-sub a b h k = omega arith

pub add32-add : (a b : ℕ) → a + b < u32_mod → add32 a b ≡ a + b
add32-add a b h = omega arith
