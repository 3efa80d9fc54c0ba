-- ===== src/Util/Copy/Laws.antt =====
-- What installer/util.c `xwrite` and `__dd` leave in a file.
use platform_bootable_iago.Base.{
  ℕ, zero, suc, ◌+◌, ◌≤◌, ◌<◌, ◌≡◌, refl, ap, ap₂, ◌∙◌, sym, arith, Bool, true, false, Bool-cases,
  inl, inr, List, [], ◌∷◌, ◌++◌, some, min, ◌==◌, if◌then◌else◌, length, take, drop, take-min,
  length-take, length-drop, ==_iff, patch, patch-nothing, patch-chunk, patch_empty, patch-end,
}
use platform_bootable_iago.Device.{Outcome, upto, eintr, error, ok, robust_read, transfer}
use platform_bootable_iago.Device.Laws.{Calm}
use platform_bootable_iago.Util.Copy.{
  xwrite, chunk, after_read, dd_loop, missing, file, open_dest, dd_with,
}

-- An empty buffer makes no call.
xwrite_none : (s : List Outcome) (f : List ℕ) (pos : ℕ) → xwrite s f pos [] ≡ some (f, pos, s)
unfolding xwrite
xwrite_none [] f pos =
    let same : pos + 0 ≡ pos = omega arith in
    ap₂ (λ g n. some (g, n, [])) (patch-nothing pos f) same
xwrite_none (upto k ∷ s) f pos = refl
xwrite_none (eintr ∷ s) f pos = refl
xwrite_none (error ∷ s) f pos = refl

nonempty : (x : ℕ) (xs : List ℕ) → (length (x ∷ xs) == 0) ≡ false
nonempty x xs = let more : 0 < suc (length xs) = omega arith in ground arith

-- Where no write fails, `xwrite` puts the whole buffer at the position, in order, however short and
-- however often interrupted the writes are, and moves the position behind it.
pub xwrite-patch :
    (s : List Outcome) (f : List ℕ) (pos : ℕ) (buf : List ℕ)
    → Calm s
    → (t : List Outcome) × (xwrite s f pos buf ≡ some (patch pos buf f, pos + length buf, t))
      × Calm t
unfolding xwrite
xwrite-patch s f pos [] calm =
    let same : pos ≡ pos + 0 = omega arith in
    (s, xwrite_none s f pos ∙ ap₂ (λ g n. some (g, n, s)) (sym (patch-nothing pos f)) same, calm)
xwrite-patch [] f pos (x ∷ buf) calm = ([], refl, tt)
xwrite-patch (upto k ∷ s) f pos (x ∷ buf) calm =
    let n = min k (length (x ∷ buf)) in
    let (t, e, calm') =
      xwrite-patch s (patch pos (take n (x ∷ buf)) f) (pos + n) (drop n (x ∷ buf)) calm in
    let joined = patch-chunk (x ∷ buf) f pos n (omega arith) in
    let place : pos + n + length (drop n (x ∷ buf)) ≡ pos + length (x ∷ buf) =
      omega (arith, length-drop n (x ∷ buf)) in
    (t, rw (nonempty x buf, xwrite) (e ∙ ap₂ (λ g m. some (g, m, t)) joined place), calm')
xwrite-patch (eintr ∷ s) f pos (x ∷ buf) calm =
    let (t, e, calm') = xwrite-patch s f pos (x ∷ buf) calm in
    (t, rw (nonempty x buf, xwrite) e, calm')
xwrite-patch (error ∷ s) f pos (x ∷ buf) calm = absurd calm

-- Reads that give something where there is something, and are not interrupted.
abbrev pub Steady : List Outcome → Type 0
Steady [] = Unit {0}
Steady (upto k ∷ s) = (0 < k) × Steady s
Steady (eintr ∷ s) = ⊥
Steady (error ∷ s) = ⊥

-- One short read: some bytes of the source, all where it is at its end.
read_some :
    (rs : List Outcome) (src : List ℕ)
    → Steady rs
    → (n : ℕ) × (t : List Outcome) × (robust_read rs src chunk true [] ≡ (ok (take n src), t))
      × (n ≤ length src)
      × (0 < length src → 0 < n)
      × (length t ≤ length rs)
      × Steady t
unfolding robust_read
read_some [] src h = (
  min chunk (length src),
  [],
  ap (λ l. (ok l, [])) (take-min chunk src),
  omega arith,
  (λ m. omega arith),
  omega arith,
  tt,
)
read_some (upto k ∷ s) src h =
    let more : 0 < k = h.0 in
    (transfer k chunk (length src), s, refl, omega arith, (λ m. omega arith), omega arith, h.1)
read_some (eintr ∷ s) src h = absurd h
read_some (error ∷ s) src h = absurd h

ended_lem : (len n : ℕ) → n ≡ 0 → (0 < len → 0 < n) → len ≡ 0
ended_lem zero n e more = refl
ended_lem (suc len) n e more = let m : 0 < n = more (omega arith) in absurd (omega arith)

positive : (m n : ℕ) → m ≡ n → (m == 0) ≡ false → 0 < n
positive m n e h = ground arith

-- The loop with enough fuel.
dd_loop-patch :
    (fuel : ℕ) (rs ws : List Outcome) (src f : List ℕ) (pos : ℕ)
    → Steady rs
    → Calm ws
    → length rs + length src < fuel
    → dd_loop fuel rs ws src f pos ≡ some (some (patch pos src f))
unfolding dd_loop
dd_loop-patch zero rs ws src f pos steady calm h = absurd (omega arith)
dd_loop-patch (suc fuel) rs ws src f pos steady calm h =
    let (n, t, e, fits, more, shorter, steady') = read_some rs src steady in
    let got : length (take n src) ≡ n = omega (arith, length-take n src) in
    elim (Bool-cases (length (take n src) == 0)) [
      | inl ended ↦
          let nothing : length src ≡ 0 =
            ended_lem (length src) n (sym got ∙ (==_iff _ 0).0 ended) more in
          ap (after_read (dd_loop fuel) ws src f pos) e
          ∙ rw ended (ap (λ g. some (some g)) (sym (patch_empty pos src f nothing)))
      | inr some_read ↦
          let (ws', written, calm') = xwrite-patch ws f pos (take n src) calm in
          let more_than_none = positive (length (take n src)) n got some_read in
          let L = length (take n src) in
          ap (after_read (dd_loop fuel) ws src f pos) e
          ∙ rw (some_read, written)
              (dd_loop-patch fuel t ws' (drop L src) (patch pos (take n src) f) (pos + L) steady'
                calm' (omega (arith, got, length-drop (length (take n src)) src)))
          ∙ ap (λ g. some (some g))
              (ap (λ m. patch (pos + m) (drop m src) (patch pos (take n src) f)) got
                ∙ patch-chunk src f pos n fits)
    ]

-- Where no call fails and no read is interrupted, `__dd` between files ends with the source in the
-- destination: behind what was there with O_APPEND, in place of it otherwise, and in a new file with
-- O_CREAT where there is none. Reads may be short, and writes short or interrupted.
pub dd_with-copied :
    (copy_ok append : Bool) (rs ws : List Outcome) (src f : List ℕ)
    → Steady rs
    → Calm ws
    → (dd_with copy_ok append rs ws (some src) (file f)
        ≡ some (some (if append then f ++ src else src)))
      × (dd_with true append rs ws (some src) missing ≡ some (some src))
unfolding dd_with open_dest
dd_with-copied copy_ok append rs ws src f steady calm = (to_file copy_ok append, to_new append)
  where
    run :
        (g : List ℕ) (pos : ℕ)
        → dd_loop (suc (length rs + length src)) rs ws src g pos ≡ some (some (patch pos src g))
    run g pos =
        dd_loop-patch (suc (length rs + length src)) rs ws src g pos steady calm (omega arith)

    to_file :
        (c a : Bool)
        → dd_with c a rs ws (some src) (file f) ≡ some (some (if a then f ++ src else src))
    to_file true true = run f (length f) ∙ ap (λ g. some (some g)) (patch-end f src)
    to_file true false = run [] 0 ∙ ap (λ g. some (some g)) (patch-end [] src)
    to_file false true = run f (length f) ∙ ap (λ g. some (some g)) (patch-end f src)
    to_file false false = run [] 0 ∙ ap (λ g. some (some g)) (patch-end [] src)

    to_new : (a : Bool) → dd_with true a rs ws (some src) missing ≡ some (some src)
    to_new a = run [] 0 ∙ ap (λ g. some (some g)) (patch-end [] src)

-- A read that is interrupted ends the copy: `__dd` takes it for the end of the source, and returns
-- as if all was copied. An interruption at the first read leaves the destination as it was opened.
pub dd_with_interrupted :
    (copy_ok append : Bool) (rs ws : List Outcome) (src f : List ℕ)
    → dd_with copy_ok append (eintr ∷ rs) ws (some src) (file f)
      ≡ some (some (if append then f else []))
unfolding dd_with open_dest dd_loop robust_read
dd_with_interrupted true true rs ws src f = refl
dd_with_interrupted true false rs ws src f = refl
dd_with_interrupted false true rs ws src f = refl
dd_with_interrupted false false rs ws src f = refl
