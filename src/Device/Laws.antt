-- ===== src/Device/Laws.antt =====
-- What libgpt/gpt.c `robust_read` and `robust_write` deliver.
use platform_bootable_iago.Base.{
  ℕ, zero, suc, ◌+◌, ◌-◌, ◌^◌, ◌≤◌, ◌<◌, ◌≡◌, ◌≢◌, refl, ap, ◌∙◌, sym, arith, true, false,
  Bool-cases, List, [], ◌∷◌, ◌++◌, ◌==◌, ==_iff, length, take, drop, slice, splice, length-drop,
  length-take, lt→ltb, le→ltb, le→leb, take-all, inl, inr, slice-splice_self, slice-splice_before,
  length-splice,
}
use platform_bootable_iago.Device.{
  Outcome, upto, eintr, error, Device, success, ok, transfer, robust_read, robust_write, read_at,
  write_at, seek_ok,
}
use mathlib.Core.List.{append_assoc, append-nil}

-- A schedule in which no call fails; calls may be short or interrupted.
abbrev pub Calm : List Outcome → Type 0
Calm [] = Unit {0}
Calm (upto k ∷ s) = Calm s
Calm (eintr ∷ s) = Calm s
Calm (error ∷ s) = ⊥

take_split : (n m : ℕ) (xs : List ℕ) → n ≤ m → take n xs ++ take (m - n) (drop n xs) ≡ take m xs
take_split zero m xs h = ap (λ k. take k xs) (omega arith)
take_split (suc n) zero xs h = absurd (omega arith)
take_split (suc n) (suc m) [] h = ends (suc m - suc n)
  where
    ends : (k : ℕ) → take {A = ℕ} k [] ≡ []
    ends zero = refl
    ends (suc k) = refl
take_split (suc n) (suc m) (x ∷ xs) h =
    ap (◌∷◌ x)
      (ap (λ k. take n xs ++ take k (drop n xs)) (omega arith) ∙ take_split n m xs (omega arith))

-- Where no call fails and the device has the bytes, `robust_read` without `short_ok` returns, and
-- gives exactly the bytes that it was asked for, however short and however often interrupted the
-- calls are.
pub robust_read_complete :
    (s : List Outcome) (src : List ℕ) (count : ℕ) (done : List ℕ)
    → Calm s
    → count ≤ length src
    → (t : List Outcome) × (robust_read s src count false done ≡ (ok (done ++ take count src), t))
      × Calm t
unfolding robust_read
robust_read_complete [] src count done calm h = ([], rw whole, tt)
  where
    whole : (length (take count src) == count) ≡ true
    whole =
        let e : length (take count src) ≡ count = omega (arith, length-take count src) in
        (==_iff _ count).1 e
robust_read_complete (upto k ∷ s) src count done calm h =
    let n = transfer k count (length src) in
    elim (Bool-cases (count - n == 0)) [
      | inl last ↦
          let all : n ≡ count = let none_left = (==_iff (count - n) 0).0 last in omega arith in
          (s, rw last (ap (λ m. (ok (done ++ take m src), s)) all), calm)
      | inr more ↦
          let (t, e, calm') =
            robust_read_complete s (drop n src) (count - n) (done ++ take n src) calm
              (omega (arith, length-drop n src)) in
          let joined : (done ++ take n src) ++ take (count - n) (drop n src)
              ≡ done ++ take count src =
            append_assoc done (take n src) (take (count - n) (drop n src))
            ∙ ap (◌++◌ done) (take_split n count src (omega arith)) in
          (t, rw more (e ∙ ap (λ xs. (ok xs, t)) joined), calm')
    ]
robust_read_complete (eintr ∷ s) src count done calm h = elim (Bool-cases (count == 0)) [
  | inl nothing ↦
      let zero_count : count ≡ 0 = (==_iff count 0).0 nothing in
      (
        s,
        rw nothing (
            ap (λ xs. (ok xs, s))
              (sym (append-nil done) ∙ ap (λ m. done ++ take m src) (sym zero_count))),
        calm,
      )
  | inr some_left ↦
      let (t, e, calm') = robust_read_complete s src count done calm h in (t, rw some_left e, calm')
]
robust_read_complete (error ∷ s) src count done calm h = absurd calm

-- The offsets that `lseek64` accepts on an open device.
pub record Reachable (dev : Device) (off n : ℕ) : Type 0 where
  pub open_ok : dev.opens ≡ true
  pub positive : off < 2 ^ 63
  pub inside : off + n ≤ length dev.bytes

seek_ok_lem : {dev : Device} {off n : ℕ} → Reachable dev off n → seek_ok dev off ≡ true
seek_ok_lem {dev} {off} r = rw (r.open_ok, lt→ltb off (2 ^ 63) r.positive)

-- A read at an offset gives the bytes there, under any schedule without failing calls.
pub read_at-slice :
    (dev : Device) (off n : ℕ) (s : List Outcome)
    → Reachable dev off n
    → Calm s
    → (t : List Outcome) × (read_at dev off n s ≡ (ok (slice off n dev.bytes), t)) × Calm t
unfolding read_at
read_at-slice dev off n s r calm =
    let (t, e, calm') =
      robust_read_complete s (drop off dev.bytes) n [] calm
        (let fits = r.inside in omega (arith, length-drop off dev.bytes)) in
    (t, rw (seek_ok_lem r) e, calm')

-- Where no call is short or interrupted, a write puts the whole buffer at the offset.
pub write_at-splice :
    (dev : Device) (off : ℕ) (buf : List ℕ)
    → Reachable dev off (length buf)
    → dev.sched ≡ []
    → write_at dev off buf ≡ (success, record dev { bytes = splice off buf dev.bytes; sched = [] })
unfolding write_at robust_write
write_at-splice dev off buf r e = rw (
  e,
  seek_ok_lem r,
  le→ltb (length buf) (length buf) (omega arith),
  le→leb (off + length buf) (length dev.bytes) r.inside,
  take-all (length buf) buf (omega arith),
  robust_write,
)

==_false : (a b : ℕ) → a ≢ b → (a == b) ≡ false
==_false a b h = ground arith

module _ (dev buf : List ℕ) (pos k : ℕ) (some_bytes : 1 ≤ k) (short : k < length buf)
    (fits : pos + length buf ≤ length dev) where
  -- What the two calls leave on the device.
  abbrev after_short : List ℕ
  after_short = splice (pos + k) (take (length buf - k) buf) (splice pos (take k buf) dev)

  robust_write_short_eq :
      robust_write (upto k ∷ []) dev pos buf (length buf) ≡ (success, after_short, [])
  unfolding robust_write
  robust_write_short_eq = rw (
    ==_false (length buf) 0 (omega arith),
    le→ltb (length buf) (length buf) (omega arith),
    transferred,
    ==_false k 0 (omega arith),
    le→ltb (length buf) (length buf - k) (omega arith),
    le→leb (pos + k + (length buf - k)) (length (splice pos (take k buf) dev)) enough,
    robust_write,
  )
    where
      transferred : transfer k (length buf) (length dev - pos) ≡ k
      transferred = omega arith

      enough : pos + k + (length buf - k) ≤ length (splice pos (take k buf) dev)
      enough = omega (arith, length-splice pos (take k buf) dev)

  len_front : (n : ℕ) → n ≤ length buf → length (take n buf) ≡ n
  len_front n h = omega (arith, length-take n buf)

  slice_front :
      (n at : ℕ) (bs : List ℕ)
      → n ≤ length buf
      → at + n ≤ length bs
      → slice at n (splice at (take n buf) bs) ≡ take n buf
  slice_front n at bs h room =
      ap (λ m. slice at m (splice at (take n buf) bs)) (sym (len_front n h))
      ∙ slice-splice_self at (take n buf) bs (omega (arith, len_front n h))

  -- After a first write that transfers `k` of the buffer's bytes, but not all of them, the loop of `robust_write` writes the front of the buffer once more: it
  -- reports success, and behind the first `k` bytes the device has the buffer's first bytes where
  -- the bytes from `k` on belong.
  pub robust_write_short :
      let (st, dev', t) = robust_write (upto k ∷ []) dev pos buf (length buf) in
      (st ≡ success)
      × (slice pos k dev' ≡ take k buf)
      × (slice (pos + k) (length buf - k) dev' ≡ take (length buf - k) buf)
  robust_write_short = rw robust_write_short_eq (
    refl,
    slice-splice_before pos k (pos + k) (take (length buf - k) buf) (splice pos (take k buf) dev)
          (omega arith)
        ∙ slice_front k pos dev (omega arith) (omega arith),
    slice_front (length buf - k) (pos + k) (splice pos (take k buf) dev) (omega arith)
        (omega (arith, length-splice pos (take k buf) dev)),
  )
