-- ===== src/Base/Slices.antt =====
-- A window of a byte array, and the array with a window overwritten.
use Prim.Native.Nat.{ℕ, zero, suc, ◌+◌, ◌≤◌}
use mathlib.Core.Path.{◌≡◌, refl, ap}
use mathlib.Core.List.{List, [], ◌∷◌, ◌++◌}
use native.Mathlib.Omega.{arith}
use platform_bootable_iago.Base.Lists.{length, take, drop, All}

module _ {ℓ} {A : Type ℓ} where
  -- The `n` elements from `off` on (fewer at the end of the array).
  abbrev pub slice : ℕ → ℕ → List A → List A
  slice off n xs = take n (drop off xs)

  -- `xs` over the front of the array; what does not fit is dropped.
  unfoldable pub overwrite : List A → List A → List A
  overwrite [] bs = bs
  overwrite (x ∷ xs) [] = []
  overwrite (x ∷ xs) (b ∷ bs) = x ∷ overwrite xs bs

  -- The array with `xs` written from `off` on.
  unfoldable pub splice : ℕ → List A → List A → List A
  unfolding overwrite
  splice zero xs bs = overwrite xs bs
  splice (suc off) xs [] = []
  splice (suc off) xs (b ∷ bs) = b ∷ splice off xs bs

  length-overwrite : (xs bs : List A) → length (overwrite xs bs) ≡ length bs
  unfolding overwrite
  length-overwrite [] bs = refl
  length-overwrite (x ∷ xs) [] = refl
  length-overwrite (x ∷ xs) (b ∷ bs) = ap suc (length-overwrite xs bs)

  pub length-splice : (off : ℕ) (xs bs : List A) → length (splice off xs bs) ≡ length bs
  unfolding splice
  length-splice zero xs bs = length-overwrite xs bs
  length-splice (suc off) xs [] = refl
  length-splice (suc off) xs (b ∷ bs) = ap suc (length-splice off xs bs)

  take-overwrite :
      (xs bs : List A) → length xs ≤ length bs → take (length xs) (overwrite xs bs) ≡ xs
  unfolding overwrite
  take-overwrite [] bs h = refl
  take-overwrite (x ∷ xs) [] h = absurd (omega arith)
  take-overwrite (x ∷ xs) (b ∷ bs) h = ap (◌∷◌ x) (take-overwrite xs bs (omega arith))

  drop-overwrite : (j : ℕ) (xs bs : List A) → length xs ≤ j → drop j (overwrite xs bs) ≡ drop j bs
  unfolding overwrite
  drop-overwrite j [] bs h = refl
  drop-overwrite zero (x ∷ xs) bs h = absurd (omega arith)
  drop-overwrite (suc j) (x ∷ xs) [] h = refl
  drop-overwrite (suc j) (x ∷ xs) (b ∷ bs) h = drop-overwrite j xs bs (omega arith)

  pub splice-zero :
      (xs bs : List A) → length xs ≤ length bs → splice 0 xs bs ≡ xs ++ drop (length xs) bs
  unfolding splice
  splice-zero [] bs h = refl
  splice-zero (x ∷ xs) [] h = absurd (omega arith)
  splice-zero (x ∷ xs) (b ∷ bs) h = ap (◌∷◌ x) (splice-zero xs bs (omega arith))

  -- What was written is read back.
  pub slice-splice_self :
      (off : ℕ) (xs bs : List A)
      → off + length xs ≤ length bs
      → slice off (length xs) (splice off xs bs) ≡ xs
  unfolding splice
  slice-splice_self zero xs bs h = take-overwrite xs bs (omega arith)
  slice-splice_self (suc off) xs [] h = absurd (omega arith)
  slice-splice_self (suc off) xs (b ∷ bs) h = slice-splice_self off xs bs (omega arith)

  -- Nothing changes behind the window.
  pub drop-splice :
      (j off : ℕ) (xs bs : List A) → off + length xs ≤ j → drop j (splice off xs bs) ≡ drop j bs
  unfolding splice
  drop-splice j zero xs bs h = drop-overwrite j xs bs (omega arith)
  drop-splice zero (suc off) xs bs h = absurd (omega arith)
  drop-splice (suc j) (suc off) xs [] h = refl
  drop-splice (suc j) (suc off) xs (b ∷ bs) h = drop-splice j off xs bs (omega arith)

  take-splice : (n off : ℕ) (xs bs : List A) → n ≤ off → take n (splice off xs bs) ≡ take n bs
  unfolding splice
  take-splice zero off xs bs h = refl
  take-splice (suc n) zero xs bs h = absurd (omega arith)
  take-splice (suc n) (suc off) xs [] h = refl
  take-splice (suc n) (suc off) xs (b ∷ bs) h = ap (◌∷◌ b) (take-splice n off xs bs (omega arith))

  -- Nothing changes before the window.
  pub slice-splice_before :
      (j n off : ℕ) (xs bs : List A) → j + n ≤ off → slice j n (splice off xs bs) ≡ slice j n bs
  unfolding splice
  slice-splice_before zero n off xs bs h = take-splice n off xs bs (omega arith)
  slice-splice_before (suc j) n zero xs bs h = absurd (omega arith)
  slice-splice_before (suc j) n (suc off) xs [] h = refl
  slice-splice_before (suc j) n (suc off) xs (b ∷ bs) h =
      slice-splice_before j n off xs bs (omega arith)

  pub slice-splice_after :
      (j n off : ℕ) (xs bs : List A)
      → off + length xs ≤ j
      → slice j n (splice off xs bs) ≡ slice j n bs
  slice-splice_after j n off xs bs h = ap (take n) (drop-splice j off xs bs h)

module _ {ℓ κ} {A : Type ℓ} (P : A → Type κ) where
  All-overwrite : (xs bs : List A) → All P xs → All P bs → All P (overwrite xs bs)
  unfolding overwrite
  All-overwrite [] bs hx hb = hb
  All-overwrite (x ∷ xs) [] hx hb = tt
  All-overwrite (x ∷ xs) (b ∷ bs) hx hb = (hx.0, All-overwrite xs bs hx.1 hb.1)

  pub All-splice : (off : ℕ) (xs bs : List A) → All P xs → All P bs → All P (splice off xs bs)
  unfolding splice
  All-splice zero xs bs hx hb = All-overwrite xs bs hx hb
  All-splice (suc off) xs [] hx hb = tt
  All-splice (suc off) xs (b ∷ bs) hx hb = (hb.0, All-splice off xs bs hx hb.1)
