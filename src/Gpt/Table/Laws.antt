-- ===== src/Gpt/Table/Laws.antt =====
-- Reading and assigning entries of the array of libgpt/gpt.c.
use platform_bootable_iago.Base.{
  ℕ, zero, suc, ◌+◌, ◌-◌, ◌*◌, ◌%◌, ◌^◌, ◌≤◌, ◌<◌, ◌≡◌, ◌≢◌, ap, ◌∙◌, sym, arith, ◌++◌, [], length,
  drop, slice, splice, slice-splice_self, slice-splice_before, slice-splice_after, length-splice,
  IsByte, length-take, length-drop, All-take, All-splice, All-drop,
}
use native.Mathlib.Decide.{dec_lt}
use mathlib.Core.List.{append-nil}
use platform_bootable_iago.Gpt.Entry.{Entry, IsEntry, encode_entry, decode_entry}
use platform_bootable_iago.Gpt.Entry.Laws.{
  decode_entry-encode_entry, length-encode_entry, encode_entry-IsByte, decode_entry-IsEntry,
}
use platform_bootable_iago.Gpt.Table.{
  Gpt, gpt_entry_offset, entry_at, set_entry, entry_bytes, IsTable, InTable,
}

mul_mono : (a b s : ℕ) → a ≤ b → a * s ≤ b * s
mul_mono a b s h = grind arith

-- The 32-bit offset of entry `k + 1` in an array of `n` entries of `s` bytes.
offset_lem :
    (k n s : ℕ)
    → 128 ≤ s
    → n * s < 2 ^ 32
    → k < n
    → (s * ((suc k + 2 ^ 32 - 1) % 2 ^ 32) % 2 ^ 32 ≡ k * s) × (k * s + s ≤ n * s) × (n ≤ n * s)
offset_lem k n s hs small hk = (ap (λ t. s * t % 2 ^ 32) index ∙ product, fits, many)
  where
    fits : k * s + s ≤ n * s
    fits = omega (arith, mul_mono (suc k) n s hk)

    many : n ≤ n * s
    many = grind arith

    index : (suc k + 2 ^ 32 - 1) % 2 ^ 32 ≡ k
    index = omega (arith, fits, many)

    product : s * k % 2 ^ 32 ≡ k * s
    product = omega (arith, fits)

-- In a table no 32-bit product wraps, and every entry ends inside the array.
pub gpt_entry_offset-eq :
    {g : Gpt} (i : ℕ)
    → IsTable g
    → InTable i g
    → (gpt_entry_offset i g ≡ (i - 1) * g.header.pentry_size)
      × (gpt_entry_offset i g + entry_bytes ≤ length g.entries)
unfolding gpt_entry_offset
gpt_entry_offset-eq zero t h = absurd (omega arith)
gpt_entry_offset-eq {g} (suc k) t h =
    let (e, fits, many) =
      offset_lem k g.header.num_pentries g.header.pentry_size t.stride t.small (omega arith) in
    let back : suc k - 1 ≡ k = omega arith in
    (rw (back, e), rw (e, t.room) (let wide = t.stride in omega arith))

-- Distinct entries do not overlap.
apart :
    {g : Gpt} (i j : ℕ)
    → IsTable g
    → InTable i g
    → InTable j g
    → i < j
    → gpt_entry_offset i g + entry_bytes ≤ gpt_entry_offset j g
apart {g} i j t hi hj lt =
    let (ei, _) = gpt_entry_offset-eq i t hi in
    let (ej, _) = gpt_entry_offset-eq j t hj in
    let wide = t.stride in
    omega (arith, ei, ej, mul_mono (i - 1 + 1) (j - 1) g.header.pentry_size (omega arith))

module _ {g : Gpt} (t : IsTable g) where
  -- An entry that was assigned is read back.
  pub entry_at-set_self :
      (i : ℕ) (e : Entry) → InTable i g → IsEntry e → entry_at i (set_entry i e g) ≡ e
  unfolding entry_at set_entry gpt_entry_offset
  entry_at-set_self i e h v = ap decode_entry same ∙ decode_entry-encode_entry e [] v
    where
      fits : gpt_entry_offset i g + length (encode_entry e) ≤ length g.entries
      fits = let (_, inside) = gpt_entry_offset-eq i t h in omega (arith, length-encode_entry e v)

      same :
          slice
            (gpt_entry_offset i g)
            entry_bytes
            (splice (gpt_entry_offset i g) (encode_entry e) g.entries)
          ≡ encode_entry e ++ []
      same =
          ap
            (λ n.
              slice (gpt_entry_offset i g) n
                (splice (gpt_entry_offset i g) (encode_entry e) g.entries))
            (sym (length-encode_entry e v))
          ∙ slice-splice_self (gpt_entry_offset i g) (encode_entry e) g.entries fits
          ∙ sym (append-nil (encode_entry e))

  -- Assigning an entry through the pointer that `gpt_entry_offset` gives leaves every other entry of
  -- a well-formed table as it was.
  pub entry_at-set_ne :
      (i j : ℕ) (e : Entry)
      → InTable i g
      → InTable j g
      → IsEntry e
      → i ≢ j
      → entry_at j (set_entry i e g) ≡ entry_at j g
  unfolding entry_at set_entry gpt_entry_offset
  entry_at-set_ne i j e hi hj v ne = elim (dec_lt i j) [
    | yes lt ↦ ap decode_entry (
        slice-splice_after (gpt_entry_offset j g) entry_bytes (gpt_entry_offset i g)
          (encode_entry e) g.entries (omega (arith, apart i j t hi hj lt, length-encode_entry e v)))
    | no ge ↦ ap decode_entry (
        slice-splice_before (gpt_entry_offset j g) entry_bytes (gpt_entry_offset i g)
          (encode_entry e) g.entries (apart j i t hj hi (omega arith)))
  ]

  -- Assigning an entry keeps the table well formed.
  pub set_entry-IsTable : (i : ℕ) (e : Entry) → IsEntry e → IsTable (set_entry i e g)
  unfolding set_entry
  set_entry-IsTable i e v = record {
    stride = t.stride;
    small = t.small;
    room = length-splice (gpt_entry_offset i g) (encode_entry e) g.entries ∙ t.room;
    bytes =
        All-splice IsByte (gpt_entry_offset i g) (encode_entry e) g.entries
          (encode_entry-IsByte e v) t.bytes;
  }

  -- Every entry of the array has the values that its fields can hold.
  pub entry_at-IsEntry : (i : ℕ) → InTable i g → IsEntry (entry_at i g)
  unfolding entry_at
  entry_at-IsEntry i h =
      decode_entry-IsEntry (slice (gpt_entry_offset i g) entry_bytes g.entries) wide
        (All-take IsByte entry_bytes _ (All-drop IsByte (gpt_entry_offset i g) g.entries t.bytes))
    where
      wide : length (slice (gpt_entry_offset i g) entry_bytes g.entries) ≡ entry_bytes
      wide =
          let (_, inside) = gpt_entry_offset-eq i t h in
          omega (
            arith,
            length-take entry_bytes (drop (gpt_entry_offset i g) g.entries),
            length-drop (gpt_entry_offset i g) g.entries,
          )
