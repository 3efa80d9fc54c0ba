-- ===== src/Base/Bits.antt =====
-- The masks of the program as arithmetic. Each is a table over the width, checked by evaluation.
use Prim.Native.Nat.{ℕ, zero, suc, ◌+◌, ◌%◌, ◌<◌, bit_and, bit_or}
use mathlib.Core.Path.{◌≡◌, refl}
use mathlib.Core.Bool.{Bool, true, false}
use native.Mathlib.Omega.{arith}
use platform_bootable_iago.Base.Tests.{◌==◌}

module _ (f g : ℕ → ℕ) where
  same_below : ℕ → Bool
  same_below zero = true
  same_below (suc n) = elim (f n == g n) [ true ↦ same_below n | false ↦ false ]

  same_below→eq : (n x : ℕ) → same_below n ≡ true → x < n → f x ≡ g x
  unfolding same_below
  same_below→eq zero x h lt = absurd (omega arith)
  same_below→eq (suc n) x h lt = ground (arith, same_below→eq n x)

-- `x & 0x3F` on a byte.
pub and_0x3f : (x : ℕ) → x < 256 → bit_and x 0x3F ≡ x % 64
unfolding same_below
and_0x3f x = same_below→eq (λ x. bit_and x 0x3F) (λ x. x % 64) 256 x refl

-- `y | 0x80` where bits 6 and 7 are clear.
pub or_0x80 : (y : ℕ) → y < 64 → bit_or y 0x80 ≡ y + 128
unfolding same_below
or_0x80 y = same_below→eq (λ y. bit_or y 0x80) (λ y. y + 128) 64 y refl

-- `y | 0x4000` where bits 12 to 15 are clear.
pub or_0x4000 : (y : ℕ) → y < 4096 → bit_or y 0x4000 ≡ y + 0x4000
unfolding same_below
or_0x4000 y = same_below→eq (λ y. bit_or y 0x4000) (λ y. y + 0x4000) 4096 y refl

-- `x & 0x0FFF` on 16 bits.
pub and_0xfff : (x : ℕ) → x < 65536 → bit_and x 0x0FFF ≡ x % 4096
unfolding same_below
and_0xfff x = same_below→eq (λ x. bit_and x 0x0FFF) (λ x. x % 4096) 65536 x refl
