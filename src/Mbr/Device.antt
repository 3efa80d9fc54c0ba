-- ===== src/Mbr/Device.antt =====
-- What a commit of the write list of editdisklbl/config_mbr.c changes on the device.
use platform_bootable_iago.Base.{
  ℕ, ◌+◌, ◌-◌, ◌≤◌, ◌≡◌, refl, ap, ◌∙◌, sym, arith, true, false, List, [], ◌∷◌, All, Option, none,
  some, le→leb, length, slice, splice, length-splice, slice-splice_before, slice-splice_after,
  slice-splice_self, replicate,
}
use mathlib.Core.Path.{subst}
use mathlib.Core.Option.{some-injective, none-ne-some}
use platform_bootable_iago.Gpt.Disk.Layout.{slice-slice}
use platform_bootable_iago.Mbr.{
  PartInfo, DiskInfo, WriteItem, Config, num_boot_record_parts, config_parts, fill_blank,
  mk_empty_ptable, config_mbr, wlist_commit,
}
use platform_bootable_iago.Mbr.Entries.{
  AllStay, HasEntries, AllStay-keeps, config_parts-AllStay, fill_blank-keeps, commit-HasEntries,
}
use platform_bootable_iago.Mbr.Commit.{
  InEntries, placed_from, length-placed_from, config_parts-primary, fill_blank-some,
}

-- A commit of items between byte 446 and `top`: the size of the device stays, and so does every
-- window of it that lies before or behind.
pub record Committed (top : ℕ) (dev dev' : List ℕ) : Type 0 where
  pub size : length dev' ≡ length dev
  pub before : (off n : ℕ) → off + n ≤ 446 → slice off n dev' ≡ slice off n dev
  pub after : (off n : ℕ) → top ≤ off → slice off n dev' ≡ slice off n dev

wlist_commit-Committed :
    (ws : List WriteItem) (dev : List ℕ)
    → 510 ≤ length dev
    → All InEntries ws
    → (dev' : List ℕ) × (wlist_commit ws false dev ≡ (true, dev')) × Committed 510 dev dev'
unfolding wlist_commit
wlist_commit-Committed [] dev h items =
    (dev, refl, record { size = refl; before = λ off n lt. refl; after = λ off n lt. refl })
wlist_commit-Committed (w ∷ ws) dev h ((lo, hi), items) =
    let same = length-splice w.offset w.bytes dev in
    let (dev', e, c) =
      wlist_commit-Committed ws (splice w.offset w.bytes dev) (omega arith) items in
    (
      dev',
      rw (le→leb (w.offset + length w.bytes) (length dev) (omega arith), wlist_commit) e,
      record {
        size = c.size ∙ same;
        before = λ off n lt.
            c.before off n lt ∙ slice-splice_before off n w.offset w.bytes dev (omega arith);
        after = λ off n lt.
            c.after off n lt ∙ slice-splice_after off n w.offset w.bytes dev (omega arith);
      },
    )

empty_len : length mk_empty_ptable.bytes ≡ 66
unfolding replicate
empty_len = refl

empty_sig : slice 64 2 mk_empty_ptable.bytes ≡ 0x55 ∷ 0xAA ∷ []
unfolding replicate
empty_sig = refl

-- The commit of a write list succeeds: it leaves what lies before the table and behind the MBR,
-- and puts the signature and the entries of the partitions.
abbrev pub Bootable : DiskInfo → List PartInfo → List WriteItem → List ℕ → Type 0
Bootable dinfo parts wr dev =
    (dev' : List ℕ) × (wlist_commit wr false dev ≡ (true, dev'))
    × Committed 512 dev dev'
    × (slice 510 2 dev' ≡ 0x55 ∷ 0xAA ∷ [])
    × HasEntries dinfo 0 parts dev'

-- The empty table with the signature, and items over its entries.
commit_table :
    (dinfo : DiskInfo) (qs : List PartInfo) (ws : List WriteItem) (dev : List ℕ)
    → 512 ≤ length dev
    → All InEntries ws
    → AllStay dinfo 0 qs ws
    → Bootable dinfo qs (mk_empty_ptable ∷ ws) dev
unfolding wlist_commit
commit_table dinfo qs ws dev h items stay =
    let base = mk_empty_ptable.bytes in
    let same = length-splice 446 base dev in
    let (dev', e, c) = wlist_commit-Committed ws (splice 446 base dev) (omega arith) items in
    (
      dev',
      rw (le→leb (446 + length base) (length dev) (omega (arith, empty_len)), wlist_commit) e,
      record {
        size = c.size ∙ same;
        before = λ off n lt. c.before off n lt ∙ slice-splice_before off n 446 base dev lt;
        after = λ off n lt.
            c.after off n (omega arith)
            ∙ slice-splice_after off n 446 base dev (omega (arith, empty_len));
      },
      c.after 510 2 (omega arith)
          ∙ sym (slice-slice 64 2 446 66 (splice 446 base dev) (omega arith))
          ∙ ap (λ n. slice 64 2 (slice 446 n (splice 446 base dev))) (sym empty_len)
          ∙ ap (slice 64 2) (slice-splice_self 446 base dev (omega (arith, empty_len)))
          ∙ empty_sig,
      commit-HasEntries dinfo 0 qs ws (splice 446 base dev) dev' (omega arith) items stay e,
    )

module _ (dinfo : DiskInfo) (wr : List WriteItem) (parts : List PartInfo) where
  fill_some :
      (r : Option (List WriteItem)) (ps : List PartInfo)
      → elim r as (λ x. Option (List WriteItem × List PartInfo)) [
        | none ↦ none
        | some ws ↦ some (mk_empty_ptable ∷ ws, ps)
      ]
        ≡ some (wr, parts)
      → (ws : List WriteItem) × (r ≡ some ws) × (wr ≡ mk_empty_ptable ∷ ws) × (ps ≡ parts)
  fill_some none ps e = absurd (none-ne-some (wr, parts) e)
  fill_some (some ws) ps e =
      let same = some-injective (mk_empty_ptable ∷ ws, ps) (wr, parts) e in
      (ws, refl, sym (ap (λ x. x.0) same), ap (λ x. x.1) same)

  -- The write list of at most four partitions.
  mbr_some :
      (r : Option (List PartInfo × Config))
      → elim r as (λ x. Option (List WriteItem × List PartInfo)) [
        | none ↦ none
        | some (ps, c) ↦
            elim (fill_blank (num_boot_record_parts - length ps) (length ps) dinfo c.wr_list)
              as (λ x. Option (List WriteItem × List PartInfo)) [
                | none ↦ none
                | some ws ↦ some (mk_empty_ptable ∷ ws, ps)
              ]
      ]
        ≡ some (wr, parts)
      → (c : Config) × (ws : List WriteItem) × (r ≡ some (parts, c))
        × (fill_blank (num_boot_record_parts - length parts) (length parts) dinfo c.wr_list
            ≡ some ws)
        × (wr ≡ mk_empty_ptable ∷ ws)
  mbr_some none e = absurd (none-ne-some (wr, parts) e)
  mbr_some (some (ps, c)) e =
      let (ws, filled, list, same) =
        fill_some (fill_blank (num_boot_record_parts - length ps) (length ps) dinfo c.wr_list) ps
          e in
      (
        c,
        ws,
        ap (λ x. some (x, c)) same,
        subst
            (λ x.
              fill_blank (num_boot_record_parts - length x) (length x) dinfo c.wr_list ≡ some ws)
            same filled,
        list,
      )

  -- For a disk of at most four partitions for which `config_mbr` finds room, the partitions lie one
  -- after the other from `skip_lba` on; and `wlist_commit` of its list on a device of at least 512
  -- bytes succeeds, leaves every byte before the table and behind the MBR as it was, puts the
  -- signature at the end of the MBR, and makes partition `i` primary entry `i`, with its active flag,
  -- its type, its first block and its length in blocks, which for a partition that fills the disk is
  -- what is left of it.
  pub config_mbr-commit :
      (dev : List ℕ)
      → 512 ≤ length dev
      → length dinfo.part_lst ≤ 4
      → config_mbr dinfo ≡ some (wr, parts)
      → (parts ≡ placed_from dinfo dinfo.part_lst dinfo.skip_lba) × Bootable dinfo parts wr dev
  unfolding config_mbr
  config_mbr-commit dev long few e =
      let (c, ws, placed, filled, list) =
        mbr_some
          (config_parts dinfo 0 dinfo.part_lst
            (record { cur_lba = dinfo.skip_lba; ext_lba = 0; extended = false; wr_list = [] }))
          e in
      let (places, items) =
        config_parts-primary dinfo 0 dinfo.part_lst parts dinfo.skip_lba [] c (omega arith) tt
          placed in
      let (_, stay) =
        config_parts-AllStay dinfo 0 dinfo.part_lst parts dinfo.skip_lba [] c (omega arith) tt
          placed in
      let count = ap length places ∙ length-placed_from dinfo dinfo.part_lst dinfo.skip_lba in
      let (ws', filled', items') =
        fill_blank-some dinfo (4 - length parts) (length parts) c.wr_list (omega arith) items in
      let same = some-injective ws' ws (sym filled' ∙ filled) in
      (
        places,
        subst (λ x. Bootable dinfo parts x dev) (sym list)
            (commit_table dinfo parts ws dev long (subst (All InEntries) same items') (
              AllStay-keeps dinfo 0 parts c.wr_list ws
                (λ w s.
                  fill_blank-keeps dinfo (4 - length parts) (length parts) c.wr_list ws w
                    (omega arith) filled s)
                stay)),
      )
