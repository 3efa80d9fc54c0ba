-- ===== src/Base/Bytes.antt =====
-- Little-endian integers in byte arrays, and the fixed widths of C.
use Prim.Native.Nat.{ℕ, zero, suc, ◌+◌, ◌*◌, ◌/◌, ◌%◌, ◌^◌, ◌≤◌, ◌<◌}
use mathlib.Core.Path.{◌≡◌, refl, ap}
use mathlib.Core.List.{List, [], ◌∷◌}
use native.Mathlib.Omega.{arith}
use native.Mathlib.Nat.{pow-suc}
use platform_bootable_iago.Base.Lists.{
  length, All, drop, length-take, length-drop, All-take, All-drop,
}
use platform_bootable_iago.Base.Slices.{slice}

abbrev pub u8 : ℕ → ℕ
u8 n = n % 2 ^ 8

abbrev pub u16 : ℕ → ℕ
u16 n = n % 2 ^ 16

abbrev pub u32 : ℕ → ℕ
u32 n = n % 2 ^ 32

abbrev pub u64 : ℕ → ℕ
u64 n = n % 2 ^ 64

abbrev pub IsByte : ℕ → Type 0
IsByte b = b < 256

-- The `n` low bytes of `v`, least significant first.
abbrev pub le_bytes : ℕ → ℕ → List ℕ
le_bytes zero v = []
le_bytes (suc n) v = (v % 256) ∷ le_bytes n (v / 256)

abbrev pub of_le : List ℕ → ℕ
of_le [] = 0
of_le (b ∷ bs) = b + 256 * of_le bs

pub of_le-le_bytes : (n v : ℕ) → v < 256 ^ n → of_le (le_bytes n v) ≡ v
of_le-le_bytes zero v h = omega arith
of_le-le_bytes (suc n) v h =
    omega (arith, of_le-le_bytes n (v / 256) (omega (arith, pow-suc 256 n)))

pub length-le_bytes : (n v : ℕ) → length (le_bytes n v) ≡ n
length-le_bytes zero v = refl
length-le_bytes (suc n) v = ap suc (length-le_bytes n (v / 256))

pub le_bytes-IsByte : (n v : ℕ) → All IsByte (le_bytes n v)
le_bytes-IsByte zero v = tt
le_bytes-IsByte (suc n) v = (omega arith, le_bytes-IsByte n (v / 256))

-- Bytes are read as the number that they are written back from.
pub le_bytes-of_le :
    (n : ℕ) (bs : List ℕ) → length bs ≡ n → All IsByte bs → le_bytes n (of_le bs) ≡ bs
le_bytes-of_le zero [] e h = refl
le_bytes-of_le zero (b ∷ bs) e h = absurd (omega arith)
le_bytes-of_le (suc n) [] e h = absurd (omega arith)
le_bytes-of_le (suc n) (b ∷ bs) e h =
    ground (arith, le_bytes-of_le n bs (omega arith) h.1, div_part, mod_part)
  where
    div_part : (b + 256 * of_le bs) / 256 ≡ of_le bs
    div_part = let hb : b < 256 = h.0 in omega arith

    mod_part : (b + 256 * of_le bs) % 256 ≡ b
    mod_part = let hb : b < 256 = h.0 in omega arith

-- What `n` bytes are read as fits `n` bytes.
pub of_le-lt : (n : ℕ) (bs : List ℕ) → length bs ≡ n → All IsByte bs → of_le bs < 256 ^ n
of_le-lt zero [] e h = omega arith
of_le-lt zero (b ∷ bs) e h = absurd (omega arith)
of_le-lt (suc n) [] e h = absurd (omega arith)
of_le-lt (suc n) (b ∷ bs) e h =
    let byte : b < 256 = h.0 in omega (arith, of_le-lt n bs (omega arith) h.1, pow-suc 256 n)

-- The same for a field of `n` bytes at `off` in a longer array.
pub of_le-slice-lt :
    (off n : ℕ) (bs : List ℕ)
    → off + n ≤ length bs
    → All IsByte bs
    → of_le (slice off n bs) < 256 ^ n
of_le-slice-lt off n bs fits h =
    of_le-lt n (slice off n bs) (omega (arith, length-take n (drop off bs), length-drop off bs))
      (All-take IsByte n _ (All-drop IsByte off bs h))
