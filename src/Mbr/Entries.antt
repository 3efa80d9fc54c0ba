-- ===== src/Mbr/Entries.antt =====
-- The entries that editdisklbl/config_mbr.c `config_mbr` puts into the MBR, read back from the
-- device.
use platform_bootable_iago.Base.{
  ℕ, zero, suc, ◌+◌, ◌*◌, ◌≤◌, ◌≡◌, refl, ap, ◌∙◌, sym, arith, true, false, Bool-cases, inl, inr,
  ◌⊎◌, List, [], ◌∷◌, All, some, le→leb, ltb, ◌==◌, if◌then◌else◌, length, bit_and, slice, splice,
  length-splice, slice-splice_after, slice-splice_self, replicate, of_le, le_bytes, u32,
}
use mathlib.Core.Path.{subst}
use mathlib.Core.Option.{some-injective, none-ne-some}
use platform_bootable_iago.Gpt.Disk.Layout.{slice-slice}
use platform_bootable_iago.Mbr.{
  PartInfo, DiskInfo, WriteItem, Config, pentry_offset, cfg_pentry, no_space, config_parts, blank,
  fill_blank, wlist_commit,
}
use platform_bootable_iago.Mbr.Commit.{
  InEntries, len_lba, primary_item, plain, behind, mk_pri_pentry-some, config_part-eq, tail_some,
  length-cfg_pentry,
}

-- An item that ends at `top` or before.
abbrev pub EndsBy : ℕ → WriteItem → Type 0
EndsBy top w = w.offset + length w.bytes ≤ top

-- An item of the list that no later item writes over: all of them end before it.
abbrev pub Stays : WriteItem → List WriteItem → Type 0
Stays w [] = ⊥
Stays w (v ∷ ws) = ((v ≡ w) × All (EndsBy w.offset) ws) ⊎ Stays w ws

All-EndsBy : (m n : ℕ) (ws : List WriteItem) → m ≤ n → All (EndsBy m) ws → All (EndsBy n) ws
All-EndsBy m n [] lt all = tt
All-EndsBy m n (w ∷ ws) lt (h, all) = (omega arith, All-EndsBy m n ws lt all)

-- Items that end before a window leave it as it is.
commit-above :
    (ws : List WriteItem) (top n : ℕ) (dev dev' : List ℕ)
    → 510 ≤ length dev
    → All InEntries ws
    → All (EndsBy top) ws
    → wlist_commit ws false dev ≡ (true, dev')
    → slice top n dev' ≡ slice top n dev
unfolding wlist_commit
commit-above [] top n dev dev' long items ends e = ap (λ r. slice top n r.1) (sym e)
commit-above (w ∷ ws) top n dev dev' long ((lo, hi), items) (h, ends) e =
    let same = length-splice w.offset w.bytes dev in
    commit-above ws top n (splice w.offset w.bytes dev) dev' (omega arith) items ends
      (rw (le→leb (w.offset + length w.bytes) (length dev) (omega arith), wlist_commit) at e)
    ∙ slice-splice_after top n w.offset w.bytes dev h

-- After the commit the bytes of an item that stays are on the device.
commit-Stays :
    (ws : List WriteItem) (w : WriteItem) (dev dev' : List ℕ)
    → 510 ≤ length dev
    → All InEntries ws
    → Stays w ws
    → wlist_commit ws false dev ≡ (true, dev')
    → slice w.offset (length w.bytes) dev' ≡ w.bytes
unfolding wlist_commit
commit-Stays [] w dev dev' long items s e = absurd s
commit-Stays (v ∷ ws) w dev dev' long ((lo, hi), items) (inl (same, ends)) e =
    let len = length-splice v.offset v.bytes dev in
    commit-above ws w.offset (length w.bytes) (splice v.offset v.bytes dev) dev' (omega arith) items
      ends (rw (le→leb (v.offset + length v.bytes) (length dev) (omega arith), wlist_commit) at e)
    ∙ subst (λ x. slice x.offset (length x.bytes) (splice v.offset v.bytes dev) ≡ x.bytes) same
        (slice-splice_self v.offset v.bytes dev (omega arith))
commit-Stays (v ∷ ws) w dev dev' long ((lo, hi), items) (inr s) e =
    let len = length-splice v.offset v.bytes dev in
    commit-Stays ws w (splice v.offset v.bytes dev) dev' (omega arith) items s
      (rw (le→leb (v.offset + length v.bytes) (length dev) (omega arith), wlist_commit) at e)

-- What the 16 bytes of an entry say: whether it is active, its type, first block and length.
pub record HasEntry (off status type start len : ℕ) (dev : List ℕ) : Type 0 where
  pub active : slice off 1 dev ≡ status ∷ []
  pub kind : slice (off + 4) 1 dev ≡ type ∷ []
  pub first : of_le (slice (off + 8) 4 dev) ≡ u32 start
  pub blocks : of_le (slice (off + 12) 4 dev) ≡ u32 len

of_le-le_bytes_4 : (v : ℕ) → of_le (le_bytes 4 v) ≡ u32 v
of_le-le_bytes_4 v = omega arith

-- The fields of an entry.
fields :
    (status type start len : ℕ)
    → (slice 0 1 (cfg_pentry status type start len) ≡ status ∷ [])
      × (slice 4 1 (cfg_pentry status type start len) ≡ type ∷ [])
      × (of_le (slice 8 4 (cfg_pentry status type start len)) ≡ u32 start)
      × (of_le (slice 12 4 (cfg_pentry status type start len)) ≡ u32 len)
unfolding cfg_pentry replicate
fields status type start len = elim (Bool-cases (ltb 0 len)) [
  | inl some_len ↦ rw some_len (refl, refl, of_le-le_bytes_4 start, of_le-le_bytes_4 len)
  | inr no_len ↦ rw no_len (refl, refl, of_le-le_bytes_4 start, of_le-le_bytes_4 len)
]

cfg_pentry-HasEntry :
    (off status type start len : ℕ) (dev : List ℕ)
    → slice off 16 dev ≡ cfg_pentry status type start len
    → HasEntry off status type start len dev
cfg_pentry-HasEntry off status type start len dev e =
    let (active, kind, first, blocks) = fields status type start len in
    record {
      active =
          subst (λ o. slice o 1 dev ≡ status ∷ []) (omega arith)
            (sym (slice-slice 0 1 off 16 dev (omega arith)) ∙ ap (slice 0 1) e ∙ active);
      kind = sym (slice-slice 4 1 off 16 dev (omega arith)) ∙ ap (slice 4 1) e ∙ kind;
      first = ap of_le (sym (slice-slice 8 4 off 16 dev (omega arith)) ∙ ap (slice 8 4) e) ∙ first;
      blocks =
          ap of_le (sym (slice-slice 12 4 off 16 dev (omega arith)) ∙ ap (slice 12 4) e) ∙ blocks;
    }

module _ (dinfo : DiskInfo) where
  -- The items of the partitions, as primary partitions from `cnt` on, are in the list to stay.
  abbrev pub AllStay : ℕ → List PartInfo → List WriteItem → Type 0
  AllStay cnt [] ws = Unit
  AllStay cnt (p ∷ ps) ws =
      Stays (primary_item dinfo p cnt p.start_lba) ws × AllStay (cnt + 1) ps ws

  -- Entry `cnt` of the MBR and those behind it are those of the partitions: the flag, the type, the
  -- first block and the length, which is to the end of the disk where the partition fills it.
  abbrev pub HasEntries : ℕ → List PartInfo → List ℕ → Type 0
  HasEntries cnt [] dev = Unit
  HasEntries cnt (p ∷ ps) dev =
      HasEntry (446 + 16 * cnt) (if bit_and p.flags 1 == 0 then 0 else 0x80) p.type p.start_lba
        (len_lba dinfo p p.start_lba) dev
      × HasEntries (cnt + 1) ps dev

  primary-EndsBy :
      (p : PartInfo) (cnt lba : ℕ) → EndsBy (pentry_offset (cnt + 1)) (primary_item dinfo p cnt lba)
  primary-EndsBy p cnt lba = omega (
    arith,
    length-cfg_pentry (if bit_and p.flags 1 == 0 then 0 else 0x80) p.type lba (len_lba dinfo p lba),
  )

  pub config_parts-AllStay :
      (cnt : ℕ) (ps qs : List PartInfo) (lba : ℕ) (wr : List WriteItem) (c' : Config)
      → cnt + length ps ≤ 4
      → All (EndsBy (pentry_offset cnt)) wr
      → config_parts dinfo cnt ps (plain dinfo lba wr) ≡ some (qs, c')
      → ((w : WriteItem) → Stays w wr → Stays w c'.wr_list) × AllStay cnt qs c'.wr_list
  unfolding config_parts
  config_parts-AllStay cnt [] qs lba wr c' h ends e =
      let same = some-injective ([], plain dinfo lba wr) (qs, c') e in
      (
        λ w s. subst (λ x. Stays w x.wr_list) (ap (λ x. x.1) same) s,
        subst (λ x. AllStay cnt x c'.wr_list) (ap (λ x. x.0) same) tt,
      )
  config_parts-AllStay cnt (p ∷ ps) qs lba wr c' h ends e =
      elim (Bool-cases (no_space dinfo p (plain dinfo lba wr))) [
        | inl full ↦ absurd (
            none-ne-some (qs, c')
              (rw (config_part-eq dinfo cnt p ps lba wr h, full, config_parts) at e))
        | inr room ↦
            let item = primary_item dinfo p cnt lba in
            let (rs, rest, split) =
              tail_some dinfo (config_parts dinfo (cnt + 1) ps (behind dinfo p cnt lba wr))
                (record p { start_lba = lba }) qs c'
                (rw (config_part-eq dinfo cnt p ps lba wr h, room, config_parts) at e) in
            let (keep, stay) =
              config_parts-AllStay (cnt + 1) ps rs (u32 (lba + len_lba dinfo p lba)) (item ∷ wr) c'
                (omega arith)
                (
                  primary-EndsBy p cnt lba,
                  All-EndsBy (pentry_offset cnt) (pentry_offset (cnt + 1)) wr (omega arith) ends,
                )
                rest in
            (
              λ w s. keep w (inr s),
              subst (λ x. AllStay cnt x c'.wr_list) (sym split)
                  (keep item (inl (refl, ends)), stay),
            )
      ]

  pub fill_blank-keeps :
      (n cnt : ℕ) (wr wr' : List WriteItem) (w : WriteItem)
      → cnt + n ≤ 4
      → fill_blank n cnt dinfo wr ≡ some wr'
      → Stays w wr
      → Stays w wr'
  unfolding fill_blank
  fill_blank-keeps zero cnt wr wr' w h e s = subst (Stays w) (some-injective wr wr' e) s
  fill_blank-keeps (suc n) cnt wr wr' w h e s =
      fill_blank-keeps n (cnt + 1) (primary_item dinfo blank cnt 0 ∷ wr) wr' w (omega arith)
        (rw (mk_pri_pentry-some dinfo blank cnt 0 (omega arith), fill_blank) at e) (inr s)

  pub AllStay-keeps :
      (cnt : ℕ) (qs : List PartInfo) (ws ws' : List WriteItem)
      → ((w : WriteItem) → Stays w ws → Stays w ws')
      → AllStay cnt qs ws
      → AllStay cnt qs ws'
  AllStay-keeps cnt [] ws ws' keep all = tt
  AllStay-keeps cnt (q ∷ qs) ws ws' keep (s, all) =
      (keep (primary_item dinfo q cnt q.start_lba) s, AllStay-keeps (cnt + 1) qs ws ws' keep all)

  pub commit-HasEntries :
      (cnt : ℕ) (qs : List PartInfo) (ws : List WriteItem) (dev dev' : List ℕ)
      → 510 ≤ length dev
      → All InEntries ws
      → AllStay cnt qs ws
      → wlist_commit ws false dev ≡ (true, dev')
      → HasEntries cnt qs dev'
  commit-HasEntries cnt [] ws dev dev' long items all e = tt
  commit-HasEntries cnt (q ∷ qs) ws dev dev' long items (s, all) e =
      let status : ℕ = if bit_and q.flags 1 == 0 then 0 else 0x80 in
      let len = len_lba dinfo q q.start_lba in
      let here = commit-Stays ws (primary_item dinfo q cnt q.start_lba) dev dev' long items s e in
      (
        cfg_pentry-HasEntry (446 + 16 * cnt) status q.type q.start_lba len dev' (
            subst (λ n. slice (446 + 16 * cnt) n dev' ≡ cfg_pentry status q.type q.start_lba len)
              (length-cfg_pentry status q.type q.start_lba len) here),
        commit-HasEntries (cnt + 1) qs ws dev dev' long items all e,
      )
