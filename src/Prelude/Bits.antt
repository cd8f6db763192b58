-- ===== src/Prelude/Bits.antt =====
-- Bit masks over a small range of values, by evaluation at each value.
use Prim.Native.Nat.{ℕ, zero, suc, ◌/◌, ◌%◌, ◌<◌, bit_and}
use mathlib.Core.Path.{◌≡◌, refl, ap, sym, ◌∙◌}
use mathlib.Core.Bool.{Bool, true, ◌&&◌}
use mathlib.Core.Logic.{inl, inr}
use native.Mathlib.Omega.{arith}
use my_rtsp_server.Prelude.Tests.{◌==◌, ==_iff, Bool-cases}

-- Two functions have the same values up to a bound.
unfoldable pub agree : (ℕ → ℕ) → (ℕ → ℕ) → ℕ → Bool
agree f g zero = true
agree f g (suc bound) = agree f g bound && (f bound == g bound)

pub agree_lem : (f g : ℕ → ℕ) (bound : ℕ) {x : ℕ} → agree f g bound ≡ true → x < bound → f x ≡ g x
unfolding agree
agree_lem f g zero same below = absurd (omega arith)
agree_lem f g (suc bound) {x} same below = elim (Bool-cases (x == bound)) [
  | inl e ↦
      let last : x ≡ bound = (==_iff x bound).0 e in
      ap f last ∙ (==_iff (f bound) (g bound)).0 (ground arith) ∙ ap g (sym last)
  | inr e ↦ agree_lem f g bound (ground arith) (ground arith)
]

high_byte_table : agree (λ x. bit_and x 0xFF00 / 256 % 256) (λ x. x / 256) 2048 ≡ true
unfolding agree
high_byte_table = refl

low_byte_table : agree (λ x. bit_and x 0xFF % 256) (λ x. x % 256) 2048 ≡ true
unfolding agree
low_byte_table = refl

-- The two bytes of a size below 2048, as the masks take them.
pub high_byte : (x : ℕ) → x < 2048 → bit_and x 0xFF00 / 256 % 256 ≡ x / 256
high_byte x = agree_lem _ _ 2048 high_byte_table

pub low_byte : (x : ℕ) → x < 2048 → bit_and x 0xFF % 256 ≡ x % 256
low_byte x = agree_lem _ _ 2048 low_byte_table
