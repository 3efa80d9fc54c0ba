-- ===== src/Mbr/Image/Laws.antt =====
-- What editdisklbl/diskutils.c `write_raw_image` puts into a file.
use platform_bootable_iago.Base.{
  ℕ, zero, suc, ◌+◌, ◌-◌, ◌^◌, ◌≤◌, ◌<◌, ◌≡◌, refl, ap, ap₂, ◌∙◌, sym, arith, Bool, true, false,
  Bool-cases, inl, inr, List, [], ◌∷◌, Option, some, min, lt→ltb, ◌==◌, if◌then◌else◌, length, take,
  drop, take-all, length-take, length-drop, patch, patch-nothing, patch-chunk,
}
use mathlib.Core.Option.{some-injective, none-ne-some}
use platform_bootable_iago.Device.{Outcome, upto, eintr, error}
use platform_bootable_iago.Mbr.Image.{
  write_chunk, buffer_size, store_chunk, copy_image, enough, write_raw_image,
}

-- Reads that give something where there is something, or are interrupted.
abbrev pub Reads : List Outcome → Type 0
Reads [] = Unit {0}
Reads (upto k ∷ s) = (0 < k) × Reads s
Reads (eintr ∷ s) = Reads s
Reads (error ∷ s) = ⊥

-- Writes that take the whole buffer, or are interrupted.
abbrev pub Writes : List Outcome → Type 0
Writes [] = Unit {0}
Writes (upto k ∷ s) = (buffer_size ≤ k) × Writes s
Writes (eintr ∷ s) = Writes s
Writes (error ∷ s) = ⊥

write_none :
    (s : List Outcome) (file : List ℕ) (pos : ℕ) (buf : List ℕ)
    → write_chunk s file pos buf 0 ≡ (true, file, pos, s)
unfolding write_chunk
write_none [] file pos buf =
    let same : pos + 0 ≡ pos = omega arith in
    ap₂ (λ f n. (true, f, n, [])) (patch-nothing pos file) same
write_none (upto k ∷ s) file pos buf = refl
write_none (eintr ∷ s) file pos buf = refl
write_none (error ∷ s) file pos buf = refl

nonzero : (m : ℕ) → 0 < m → (m == 0) ≡ false
nonzero m lt = ground arith

positive : (m : ℕ) → (m == 0) ≡ false → 0 < m
positive m e = ground arith

write_chunk-whole :
    (s : List Outcome) (file : List ℕ) (pos : ℕ) (buf : List ℕ)
    → Writes s
    → length buf ≤ buffer_size
    → (t : List Outcome) × (write_chunk s file pos buf (length buf)
        ≡ (true, patch pos buf file, pos + length buf, t))
      × Writes t
unfolding write_chunk
write_chunk-whole s file pos [] h small =
    let same : pos ≡ pos + 0 = omega arith in
    (
      s,
      write_none s file pos [] ∙ ap₂ (λ f n. (true, f, n, s)) (sym (patch-nothing pos file)) same,
      h,
    )
write_chunk-whole [] file pos (x ∷ buf) h small = (
  [],
  ap (λ b. (true, patch pos b file, pos + length (x ∷ buf), []))
      (take-all (length (x ∷ buf)) (x ∷ buf) (omega arith)),
  tt,
)
write_chunk-whole (upto k ∷ s) file pos (x ∷ buf) h small =
    let all : min k (length (x ∷ buf)) ≡ length (x ∷ buf) = let big = h.0 in omega arith in
    let none_left : length (x ∷ buf) - length (x ∷ buf) ≡ 0 = omega arith in
    (
      s,
      rw
          (
            nonzero (length (x ∷ buf)) (omega arith),
            all,
            take-all (length (x ∷ buf)) (x ∷ buf) (omega arith),
            none_left,
            write_chunk,
          )
          (write_none s (patch pos (x ∷ buf) file) (pos + length (x ∷ buf)) (x ∷ buf)),
      h.1,
    )
write_chunk-whole (eintr ∷ s) file pos (x ∷ buf) h small =
    let (t, e, h') = write_chunk-whole s file pos (x ∷ buf) h small in
    (t, rw (nonzero (length (x ∷ buf)) (omega arith), write_chunk) e, h')
write_chunk-whole (error ∷ s) file pos (x ∷ buf) h small = absurd h

-- A round of the loop that reads `n` bytes.
module _ (fuel : ℕ) (rs : List Outcome) (src file : List ℕ) (pos n : ℕ) where
  abbrev round : Bool → List Outcome → Option (Bool × List ℕ)
  round test ws =
      let (stored, file', pos', ws') = store_chunk test ws file pos (take n src) in
      let rest = copy_image fuel test rs ws' (drop n src) file' pos' in
      if n == 0 then some (true, file) else if stored then rest else some (false, file')

  round-write :
      (ws : List Outcome)
      → Writes ws
      → 0 < n
      → n ≤ length src
      → n ≤ buffer_size
      → (t : List Outcome) × Writes t
        × (round false ws
            ≡ copy_image fuel false rs t (drop n src) (patch pos (take n src) file) (pos + n))
  round-write ws h more fits small =
      let got : length (take n src) ≡ n = omega (arith, length-take n src) in
      let (t, e, h') = write_chunk-whole ws file pos (take n src) h (omega arith) in
      let some_read : (n == 0) ≡ false = nonzero n more in
      (
        t,
        h',
        rw (e, some_read)
            (ap
              (λ m. copy_image fuel false rs t (drop n src) (patch pos (take n src) file) (pos + m))
              got),
      )

  round-total :
      (test : Bool) (ws : List Outcome)
      → (0 < n
          → (ws' : List Outcome) (file' : List ℕ) (pos' : ℕ)
          → (r : Bool × List ℕ) × (copy_image fuel test rs ws' (drop n src) file' pos' ≡ some r))
      → (r : Bool × List ℕ) × (round test ws ≡ some r)
  round-total test ws rest = elim (Bool-cases (n == 0)) [
    | inl ended ↦ ((true, file), rw ended refl)
    | inr more ↦
        let (stored, file', pos', ws') = store_chunk test ws file pos (take n src) in
        let (r, e) = rest (positive n more) ws' file' pos' in
        elim (Bool-cases stored) [
          | inl written ↦ (r, rw (more, written) e)
          | inr failed ↦ ((false, file'), rw (more, failed) refl)
        ]
  ]

-- The copy with enough fuel.
copy_image-patch :
    (fuel : ℕ) (rs ws : List Outcome) (src file : List ℕ) (pos : ℕ)
    → Reads rs
    → Writes ws
    → length rs + length src < fuel
    → copy_image fuel false rs ws src file pos ≡ some (true, patch pos src file)
unfolding copy_image
copy_image-patch zero rs ws src file pos r w enough_fuel = absurd (omega arith)
copy_image-patch (suc fuel) [] ws [] file pos r w enough_fuel =
    ap (λ f. some (true, f)) (sym (patch-nothing pos file))
copy_image-patch (suc fuel) [] ws (x ∷ src) file pos r w enough_fuel =
    let n = min buffer_size (length (x ∷ src)) in
    let (t, h, e) =
      round-write fuel [] (x ∷ src) file pos n ws w (omega arith) (omega arith) (omega arith) in
    e
    ∙ copy_image-patch fuel [] t (drop n (x ∷ src)) (patch pos (take n (x ∷ src)) file) (pos + n) r
        h (omega (arith, length-drop n (x ∷ src)))
    ∙ ap (λ f. some (true, f)) (patch-chunk (x ∷ src) file pos n (omega arith))
copy_image-patch (suc fuel) (upto k ∷ rs) ws [] file pos r w enough_fuel =
    let nothing : min k (min buffer_size 0) ≡ 0 = omega arith in
    rw nothing (ap (λ f. some (true, f)) (sym (patch-nothing pos file)))
copy_image-patch (suc fuel) (upto k ∷ rs) ws (x ∷ src) file pos r w enough_fuel =
    let n = min k (min buffer_size (length (x ∷ src))) in
    let some_read : 0 < k = r.0 in
    let (t, h, e) =
      round-write fuel rs (x ∷ src) file pos n ws w (omega arith) (omega arith) (omega arith) in
    e
    ∙ copy_image-patch fuel rs t (drop n (x ∷ src)) (patch pos (take n (x ∷ src)) file) (pos + n)
        r.1 h (omega (arith, length-drop n (x ∷ src)))
    ∙ ap (λ f. some (true, f)) (patch-chunk (x ∷ src) file pos n (omega arith))
copy_image-patch (suc fuel) (eintr ∷ rs) ws src file pos r w enough_fuel =
    copy_image-patch fuel rs ws src file pos r w (omega arith)
copy_image-patch (suc fuel) (error ∷ rs) ws src file pos r w enough_fuel = absurd r

-- The image of a source that opens ends up in a destination that opens, at any offset below 2^63,
-- whatever the sizes: `write_raw_image` ends with 0 and the destination is the old one with the
-- bytes of the source written over it from the offset on, as long as no read or write fails and no
-- write is short; reads may be short, and both may be interrupted.
pub write_raw_image-patch :
    (rs ws : List Outcome) (src file : List ℕ) (offset : ℕ)
    → Reads rs
    → Writes ws
    → offset < 2 ^ 63
    → write_raw_image rs ws (some src) (some file) offset false
      ≡ some (true, some (patch offset src file))
unfolding write_raw_image
write_raw_image-patch rs ws src file offset r w lt =
    rw
      (
        lt→ltb offset (2 ^ 63) lt,
        copy_image-patch (enough rs src) rs ws src file offset r w (omega arith),
      )
      refl

copy_image-total :
    (fuel : ℕ) (test : Bool) (rs ws : List Outcome) (src file : List ℕ) (pos : ℕ)
    → length rs + length src < fuel
    → (r : Bool × List ℕ) × (copy_image fuel test rs ws src file pos ≡ some r)
unfolding copy_image
copy_image-total zero test rs ws src file pos h = absurd (omega arith)
copy_image-total (suc fuel) test [] ws src file pos h =
    let n = min buffer_size (length src) in
    round-total fuel [] src file pos n test ws (λ more ws' file' pos'.
      copy_image-total fuel test [] ws' (drop n src) file' pos' (omega (arith, length-drop n src)))
copy_image-total (suc fuel) test (upto k ∷ rs) ws src file pos h =
    let n = min k (min buffer_size (length src)) in
    round-total fuel rs src file pos n test ws (λ more ws' file' pos'.
      copy_image-total fuel test rs ws' (drop n src) file' pos' (omega (arith, length-drop n src)))
copy_image-total (suc fuel) test (eintr ∷ rs) ws src file pos h =
    copy_image-total fuel test rs ws src file pos (omega arith)
copy_image-total (suc fuel) test (error ∷ rs) ws src file pos h = ((false, file), refl)

copy_image-test :
    (fuel : ℕ) (rs ws : List Outcome) (src file : List ℕ) (pos : ℕ) (r : Bool × List ℕ)
    → copy_image fuel true rs ws src file pos ≡ some r
    → r.1 ≡ file
unfolding copy_image
copy_image-test zero rs ws src file pos r e = absurd (none-ne-some r e)
copy_image-test (suc fuel) [] ws src file pos r e =
    let n = min buffer_size (length src) in
    elim (Bool-cases (n == 0)) [
      | inl ended ↦ ap (λ x. x.1) (sym (some-injective (true, file) r (rw ended at e)))
      | inr more ↦ copy_image-test fuel [] ws (drop n src) file pos r (rw more at e)
    ]
copy_image-test (suc fuel) (upto k ∷ rs) ws src file pos r e =
    let n = min k (min buffer_size (length src)) in
    elim (Bool-cases (n == 0)) [
      | inl ended ↦ ap (λ x. x.1) (sym (some-injective (true, file) r (rw ended at e)))
      | inr more ↦ copy_image-test fuel rs ws (drop n src) file pos r (rw more at e)
    ]
copy_image-test (suc fuel) (eintr ∷ rs) ws src file pos r e =
    copy_image-test fuel rs ws src file pos r e
copy_image-test (suc fuel) (error ∷ rs) ws src file pos r e =
    ap (λ x. x.1) (sym (some-injective (false, file) r e))

-- On a finite schedule of calls, behind which every call transfers all that it is asked for,
-- `write_raw_image` in test mode comes to a result and leaves a destination that is there as it was.
pub write_raw_image-test :
    (rs ws : List Outcome) (src file : List ℕ) (offset : ℕ)
    → (ok : Bool) × (write_raw_image rs ws (some src) (some file) offset true
        ≡ some (ok, some file))
unfolding write_raw_image
write_raw_image-test rs ws src file offset =
    let (r, e) = copy_image-total (enough rs src) true rs ws src file offset (omega arith) in
    let same = copy_image-test (enough rs src) rs ws src file offset r e in (r.0, rw (e, same) refl)
