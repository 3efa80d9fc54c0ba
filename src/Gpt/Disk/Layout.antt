-- ===== src/Gpt/Disk/Layout.antt =====
-- Where libgpt/gpt.c `gpt_write` puts the five pieces that it writes, and what the disk then holds.
use platform_bootable_iago.Base.{
  ℕ, zero, suc, ◌+◌, ◌≤◌, ◌≡◌, refl, ap, ◌∙◌, sym, arith, List, [], ◌∷◌, length, take, drop, slice,
  splice, slice-splice_self, slice-splice_before, slice-splice_after, length-splice,
}

-- Five disjoint windows of a disk: the MBR, the first header and array, the second array and
-- header, in the order of their offsets.
module _ (bs mbr h1 a1 h2 a2 : List ℕ) (om oh1 oa1 oa2 oh2 : ℕ) where
  pub record Apart : Type 0 where
    pub mbr_h1 : om + length mbr ≤ oh1
    pub h1_a1 : oh1 + length h1 ≤ oa1
    pub a1_a2 : oa1 + length a1 ≤ oa2
    pub a2_h2 : oa2 + length a2 ≤ oh2
    pub h2_end : oh2 + length h2 ≤ length bs

  -- The disk after each write, in the order of the writes.
  abbrev after_h1 : List ℕ
  after_h1 = splice oh1 h1 bs

  abbrev after_a1 : List ℕ
  after_a1 = splice oa1 a1 after_h1

  abbrev after_h2 : List ℕ
  after_h2 = splice oh2 h2 after_a1

  abbrev after_a2 : List ℕ
  after_a2 = splice oa2 a2 after_h2

  abbrev pub written : List ℕ
  written = splice om mbr after_a2

  module _ (w : Apart) where
    len_h1 : length after_h1 ≡ length bs
    len_h1 = length-splice oh1 h1 bs

    len_a1 : length after_a1 ≡ length bs
    len_a1 = length-splice oa1 a1 after_h1 ∙ len_h1

    len_h2 : length after_h2 ≡ length bs
    len_h2 = length-splice oh2 h2 after_a1 ∙ len_a1

    len_a2 : length after_a2 ≡ length bs
    len_a2 = length-splice oa2 a2 after_h2 ∙ len_h2

    pub length-written : length written ≡ length bs
    length-written = length-splice om mbr after_a2 ∙ len_a2

    pub slice-mbr : slice om (length mbr) written ≡ mbr
    slice-mbr = slice-splice_self om mbr after_a2 (omega (arith, len_a2))

    pub slice-h1 : slice oh1 (length h1) written ≡ h1
    slice-h1 =
        slice-splice_after oh1 (length h1) om mbr after_a2 w.mbr_h1
        ∙ slice-splice_before oh1 (length h1) oa2 a2 after_h2 (omega arith)
        ∙ slice-splice_before oh1 (length h1) oh2 h2 after_a1 (omega arith)
        ∙ slice-splice_before oh1 (length h1) oa1 a1 after_h1 (omega arith)
        ∙ slice-splice_self oh1 h1 bs (omega arith)

    pub slice-a1 : slice oa1 (length a1) written ≡ a1
    slice-a1 =
        slice-splice_after oa1 (length a1) om mbr after_a2 (omega arith)
        ∙ slice-splice_before oa1 (length a1) oa2 a2 after_h2 (omega arith)
        ∙ slice-splice_before oa1 (length a1) oh2 h2 after_a1 (omega arith)
        ∙ slice-splice_self oa1 a1 after_h1 (omega (arith, len_h1))

    pub slice-h2 : slice oh2 (length h2) written ≡ h2
    slice-h2 =
        slice-splice_after oh2 (length h2) om mbr after_a2 (omega arith)
        ∙ slice-splice_after oh2 (length h2) oa2 a2 after_h2 (omega arith)
        ∙ slice-splice_self oh2 h2 after_a1 (omega (arith, len_a1))

    pub slice-a2 : slice oa2 (length a2) written ≡ a2
    slice-a2 =
        slice-splice_after oa2 (length a2) om mbr after_a2 (omega arith)
        ∙ slice-splice_self oa2 a2 after_h2 (omega (arith, len_h2))

take-nil : (n : ℕ) → take {A = ℕ} n [] ≡ []
take-nil zero = refl
take-nil (suc n) = refl

slice-nil : (off n : ℕ) → slice {A = ℕ} off n [] ≡ []
slice-nil zero n = take-nil n
slice-nil (suc off) n = take-nil n

-- A window inside a window.
pub slice-slice :
    (i n off m : ℕ) (bs : List ℕ) → i + n ≤ m → slice i n (slice off m bs) ≡ slice (off + i) n bs
slice-slice i n zero m bs h = inner i n m bs h ∙ ap (λ k. slice k n bs) same
  where
    same : i ≡ zero + i
    same = omega arith

    fewer : (n m : ℕ) (bs : List ℕ) → n ≤ m → take n (take m bs) ≡ take n bs
    fewer zero m bs h = refl
    fewer (suc n) zero bs h = absurd (omega arith)
    fewer (suc n) (suc m) [] h = refl
    fewer (suc n) (suc m) (b ∷ bs) h = ap (◌∷◌ b) (fewer n m bs (omega arith))

    inner : (i n m : ℕ) (bs : List ℕ) → i + n ≤ m → take n (drop i (take m bs)) ≡ take n (drop i bs)
    inner zero n m bs h = fewer n m bs (omega arith)
    inner (suc i) n zero bs h = absurd (omega arith)
    inner (suc i) n (suc m) [] h = refl
    inner (suc i) n (suc m) (b ∷ bs) h = inner i n m bs (omega arith)
slice-slice i n (suc off) m [] h =
    ap (slice i n) (take-nil m) ∙ slice-nil i n ∙ sym (slice-nil (suc off + i) n)
slice-slice i n (suc off) m (b ∷ bs) h =
    let same : suc (off + i) ≡ suc off + i = omega arith in
    slice-slice i n off m bs h ∙ ap (λ k. slice k n (b ∷ bs)) same
