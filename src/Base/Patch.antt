-- ===== src/Base/Patch.antt =====
-- A file overwritten from an offset on: it grows where the bytes go over its end, and a gap before
-- the offset is filled with zeros.
use Prim.Native.Nat.{ℕ, zero, suc, ◌+◌, ◌≤◌}
use mathlib.Core.Path.{◌≡◌, refl, sym, ap, ◌∙◌}
use mathlib.Core.List.{List, [], ◌∷◌, ◌++◌, append-nil}
use native.Mathlib.Omega.{arith}
use platform_bootable_iago.Base.Lists.{length, take, drop, take-all, take-drop, length-take}
use platform_bootable_iago.Base.Slices.{slice}

unfoldable pub patch : ℕ → List ℕ → List ℕ → List ℕ
patch zero [] bs = bs
patch zero (x ∷ xs) [] = x ∷ xs
patch zero (x ∷ xs) (b ∷ bs) = x ∷ patch zero xs bs
patch (suc off) [] bs = bs
patch (suc off) (x ∷ xs) [] = 0 ∷ patch off (x ∷ xs) []
patch (suc off) (x ∷ xs) (b ∷ bs) = b ∷ patch off (x ∷ xs) bs

pub patch-nothing : (off : ℕ) (bs : List ℕ) → patch off [] bs ≡ bs
unfolding patch
patch-nothing zero bs = refl
patch-nothing (suc off) bs = refl

moved : (off n : ℕ) → suc off + suc n ≡ suc (off + suc n)
moved off n = omega arith

pub patch-end : (xs ys : List ℕ) → patch (length xs) ys xs ≡ xs ++ ys
unfolding patch
patch-end [] [] = refl
patch-end [] (y ∷ ys) = refl
patch-end (x ∷ xs) [] = ap (◌∷◌ x) (sym (append-nil xs))
patch-end (x ∷ xs) (y ∷ ys) = ap (◌∷◌ x) (patch-end xs (y ∷ ys))

patch-front : (xs ys bs : List ℕ) → patch (length xs) ys (patch 0 xs bs) ≡ patch 0 (xs ++ ys) bs
unfolding patch
patch-front [] ys bs = refl
patch-front (x ∷ xs) ys [] = patch-end (x ∷ xs) ys
patch-front (x ∷ xs) [] (b ∷ bs) = ap (λ l. x ∷ patch 0 l bs) (sym (append-nil xs))
patch-front (x ∷ xs) (y ∷ ys) (b ∷ bs) = ap (◌∷◌ x) (patch-front xs (y ∷ ys) bs)

-- Two writes, the second where the first ended.
pub patch-patch :
    (off : ℕ) (xs ys bs : List ℕ)
    → patch (off + length xs) ys (patch off xs bs) ≡ patch off (xs ++ ys) bs
unfolding patch
patch-patch zero xs ys bs =
    ap (λ n. patch n ys (patch 0 xs bs)) (omega arith) ∙ patch-front xs ys bs
patch-patch (suc off) [] ys bs =
    let same : suc off + 0 ≡ suc off = omega arith in ap (λ n. patch n ys bs) same
patch-patch (suc off) (x ∷ xs) [] bs =
    patch-nothing _ (patch (suc off) (x ∷ xs) bs)
    ∙ ap (λ l. patch (suc off) l bs) (sym (append-nil (x ∷ xs)))
patch-patch (suc off) (x ∷ xs) (y ∷ ys) [] =
    ap (λ n. patch n (y ∷ ys) (0 ∷ patch off (x ∷ xs) [])) (moved off (length xs))
    ∙ ap (◌∷◌ 0) (patch-patch off (x ∷ xs) (y ∷ ys) [])
patch-patch (suc off) (x ∷ xs) (y ∷ ys) (b ∷ bs) =
    ap (λ n. patch n (y ∷ ys) (b ∷ patch off (x ∷ xs) bs)) (moved off (length xs))
    ∙ ap (◌∷◌ b) (patch-patch off (x ∷ xs) (y ∷ ys) bs)

-- What was written is read back.
pub slice-patch_self : (off : ℕ) (xs bs : List ℕ) → slice off (length xs) (patch off xs bs) ≡ xs
unfolding patch
slice-patch_self zero [] bs = refl
slice-patch_self zero (x ∷ xs) [] = ap (◌∷◌ x) (take-all (length xs) xs (omega arith))
slice-patch_self zero (x ∷ xs) (b ∷ bs) = ap (◌∷◌ x) (slice-patch_self zero xs bs)
slice-patch_self (suc off) [] bs = refl
slice-patch_self (suc off) (x ∷ xs) [] = slice-patch_self off (x ∷ xs) []
slice-patch_self (suc off) (x ∷ xs) (b ∷ bs) = slice-patch_self off (x ∷ xs) bs

-- Nothing changes before the offset.
pub take-patch :
    (n off : ℕ) (xs bs : List ℕ) → n ≤ off → n ≤ length bs → take n (patch off xs bs) ≡ take n bs
unfolding patch
take-patch zero off xs bs h k = refl
take-patch (suc n) zero xs bs h k = absurd (omega arith)
take-patch (suc n) (suc off) [] bs h k = refl
take-patch (suc n) (suc off) (x ∷ xs) [] h k = absurd (omega arith)
take-patch (suc n) (suc off) (x ∷ xs) (b ∷ bs) h k =
    ap (◌∷◌ b) (take-patch n off (x ∷ xs) bs (omega arith) (omega arith))

-- Nothing changes behind what was written.
pub drop-patch :
    (off : ℕ) (xs bs : List ℕ) (j : ℕ)
    → off + length xs ≤ j
    → off + length xs ≤ length bs
    → drop j (patch off xs bs) ≡ drop j bs
unfolding patch
drop-patch zero [] bs j h k = refl
drop-patch zero (x ∷ xs) [] j h k = absurd (omega arith)
drop-patch zero (x ∷ xs) (b ∷ bs) zero h k = absurd (omega arith)
drop-patch zero (x ∷ xs) (b ∷ bs) (suc j) h k = drop-patch zero xs bs j (omega arith) (omega arith)
drop-patch (suc off) [] bs j h k = refl
drop-patch (suc off) (x ∷ xs) [] j h k = absurd (omega arith)
drop-patch (suc off) (x ∷ xs) (b ∷ bs) zero h k = absurd (omega arith)
drop-patch (suc off) (x ∷ xs) (b ∷ bs) (suc j) h k =
    drop-patch off (x ∷ xs) bs j (omega arith) (omega arith)

-- The front of a source, and what is behind it.
pub patch-chunk :
    (src bs : List ℕ) (off n : ℕ)
    → n ≤ length src
    → patch (off + n) (drop n src) (patch off (take n src) bs) ≡ patch off src bs
patch-chunk src bs off n fits =
    let got : length (take n src) ≡ n = omega (arith, length-take n src) in
    ap (λ m. patch (off + m) (drop n src) (patch off (take n src) bs)) (sym got)
    ∙ patch-patch off (take n src) (drop n src) bs
    ∙ ap (λ l. patch off l bs) (take-drop n src)

pub patch_empty : (off : ℕ) (src bs : List ℕ) → length src ≡ 0 → patch off src bs ≡ bs
patch_empty off [] bs e = patch-nothing off bs
patch_empty off (x ∷ src) bs e = absurd (omega arith)
