-- ===== src/Mbr/Apply/Again.antt =====
-- A second run of editdisklbl/config_mbr.c `config_mbr`, on the partitions that the first placed.
use platform_bootable_iago.Base.{
  ℕ, zero, suc, ◌+◌, ◌-◌, ◌≤◌, ◌≡◌, refl, ap, ◌∙◌, sym, arith, Bool-cases, inl, inr, List, [], ◌∷◌,
  Option, none, some, if◌then◌else◌, length, u32,
}
use mathlib.Core.Option.{some-injective, none-ne-some}
use platform_bootable_iago.Mbr.{
  PartInfo, DiskInfo, WriteItem, Config, config_mbr, config_parts, fill_blank, no_space, blank,
  num_boot_record_parts, mk_empty_ptable,
}
use platform_bootable_iago.Mbr.Commit.{
  placed_from, length-placed_from, plain, len_lba, config_part-eq, behind, mk_pri_pentry-some,
  primary_item,
}

-- A partition before those that a round gives.
abbrev prepend : PartInfo → Option (List PartInfo × Config) → Option (List PartInfo × Config)
prepend p none = none
prepend p (some (ps, c)) = some (p ∷ ps, c)

-- A round of `config_mbr` on a disk of at most four partitions.
config_parts-eq :
    (dinfo : DiskInfo) (cnt : ℕ) (p : PartInfo) (ps : List PartInfo) (lba : ℕ) (wr : List WriteItem)
    → cnt + suc (length ps) ≤ 4
    → config_parts dinfo cnt (p ∷ ps) (plain dinfo lba wr) ≡ (
        if no_space dinfo p (plain dinfo lba wr)
        then none
        else prepend
            (record p { start_lba = lba })
            (config_parts dinfo (cnt + 1) ps (behind dinfo p cnt lba wr)))
unfolding config_parts no_space
config_parts-eq dinfo cnt p ps lba wr h =
    elim (Bool-cases (no_space dinfo p (plain dinfo lba wr))) [
      | inl full ↦ rw (config_part-eq dinfo cnt p ps lba wr h, full, config_parts) refl
      | inr room ↦
          rw (config_part-eq dinfo cnt p ps lba wr h, room, config_parts)
            (go (config_parts dinfo (cnt + 1) ps (behind dinfo p cnt lba wr)))
    ]
  where
    go :
        (r : Option (List PartInfo × Config))
        → elim r as (λ x. Option (List PartInfo × Config)) [
          | none ↦ none
          | some (ps', c'') ↦ some (record p { start_lba = lba } ∷ ps', c'')
        ]
          ≡ prepend (record p { start_lba = lba }) r
    go none = refl
    go (some (ps', c'')) = refl

module _ (dinfo : DiskInfo) (qs : List PartInfo) where
  -- The configuration with other partitions.
  abbrev pub moved : DiskInfo
  moved = record dinfo { part_lst = qs }

  no_space-moved :
      (p : PartInfo) (l : ℕ) (c : Config)
      → no_space moved (record p { start_lba = l }) c ≡ no_space dinfo p c
  unfolding no_space
  no_space-moved p l c = refl

  -- Where the partitions lay before does not matter.
  config_parts-moved :
      (cnt : ℕ) (ps : List PartInfo) (l lba : ℕ) (wr : List WriteItem)
      → cnt + length ps ≤ 4
      → config_parts moved cnt (placed_from dinfo ps l) (plain dinfo lba wr)
        ≡ config_parts dinfo cnt ps (plain dinfo lba wr)
  unfolding config_parts
  config_parts-moved cnt [] l lba wr h = refl
  config_parts-moved cnt (p ∷ ps) l lba wr h =
      let next = u32 (l + len_lba dinfo p l) in
      config_parts-eq moved cnt (record p { start_lba = l }) (placed_from dinfo ps next) lba wr
        (omega (arith, length-placed_from dinfo ps next))
      ∙ ap
          (λ b.
            if b
            then none
            else prepend (record p { start_lba = lba })
                (config_parts moved (cnt + 1) (placed_from dinfo ps next)
                  (behind dinfo p cnt lba wr)))
          (no_space-moved p l (plain dinfo lba wr))
      ∙ ap
          (λ r.
            if no_space dinfo p (plain dinfo lba wr)
            then none
            else prepend (record p { start_lba = lba }) r)
          (config_parts-moved (cnt + 1) ps next (u32 (lba + len_lba dinfo p lba))
            (primary_item dinfo p cnt lba ∷ wr) (omega arith))
      ∙ sym (config_parts-eq dinfo cnt p ps lba wr h)

  fill_blank-moved :
      (n cnt : ℕ) (wr : List WriteItem)
      → cnt + n ≤ 4
      → fill_blank n cnt moved wr ≡ fill_blank n cnt dinfo wr
  unfolding fill_blank
  fill_blank-moved zero cnt wr h = refl
  fill_blank-moved (suc n) cnt wr h =
      rw (mk_pri_pentry-some moved blank cnt 0 (omega arith), fill_blank)
        (fill_blank-moved n (cnt + 1) (primary_item dinfo blank cnt 0 ∷ wr) (omega arith))

-- What `config_mbr` makes of the result of its loop.
abbrev listed :
    DiskInfo → List PartInfo → Option (List WriteItem) → Option (List WriteItem × List PartInfo)
listed dinfo ps none = none
listed dinfo ps (some wr) = some (mk_empty_ptable ∷ wr, ps)

abbrev finished :
    DiskInfo → Option (List PartInfo × Config) → Option (List WriteItem × List PartInfo)
finished dinfo none = none
finished dinfo (some (ps, c)) =
    listed dinfo ps (fill_blank (num_boot_record_parts - length ps) (length ps) dinfo c.wr_list)

config_mbr-finished :
    (dinfo : DiskInfo)
    → config_mbr dinfo
      ≡ finished dinfo (config_parts dinfo 0 dinfo.part_lst (plain dinfo dinfo.skip_lba []))
unfolding config_mbr
config_mbr-finished dinfo = go (config_parts dinfo 0 dinfo.part_lst (plain dinfo dinfo.skip_lba []))
  where
    inner :
        (ps : List PartInfo) (r : Option (List WriteItem))
        → elim r as (λ x. Option (List WriteItem × List PartInfo)) [
          | none ↦ none
          | some wr ↦ some (mk_empty_ptable ∷ wr, ps)
        ]
          ≡ listed dinfo ps r
    inner ps none = refl
    inner ps (some wr) = refl

    go :
        (r : Option (List PartInfo × Config))
        → elim r as (λ x. Option (List WriteItem × List PartInfo)) [
          | none ↦ none
          | some (parts, c) ↦
              elim (fill_blank
                  (num_boot_record_parts - length parts)
                  (length parts)
                  dinfo
                  c.wr_list)
                as (λ x. Option (List WriteItem × List PartInfo)) [
                  | none ↦ none
                  | some wr ↦ some (mk_empty_ptable ∷ wr, parts)
                ]
        ]
          ≡ finished dinfo r
    go none = refl
    go (some (ps, c)) = inner ps _

module _ (dinfo : DiskInfo) (wr : List WriteItem) (parts : List PartInfo) where
  listed_parts :
      (ps : List PartInfo) (r : Option (List WriteItem))
      → listed dinfo ps r ≡ some (wr, parts)
      → ps ≡ parts
  listed_parts ps none e = absurd (none-ne-some (wr, parts) e)
  listed_parts ps (some ws) e =
      ap (λ x. x.1) (some-injective (mk_empty_ptable ∷ ws, ps) (wr, parts) e)

  finished_again :
      (r : Option (List PartInfo × Config))
      → length parts ≤ 4
      → finished dinfo r ≡ some (wr, parts)
      → finished (moved dinfo parts) r ≡ some (wr, parts)
  finished_again none few e = absurd (none-ne-some (wr, parts) e)
  finished_again (some (ps, c)) few e =
      let same = ap length (listed_parts ps _ e) in
      ap (listed dinfo ps)
        (fill_blank-moved dinfo parts (4 - length ps) (length ps) c.wr_list (omega arith))
      ∙ e

  -- A second run of `config_mbr` finds what the first did.
  pub config_mbr_again :
      length dinfo.part_lst ≤ 4
      → parts ≡ placed_from dinfo dinfo.part_lst dinfo.skip_lba
      → config_mbr dinfo ≡ some (wr, parts)
      → config_mbr (moved dinfo parts) ≡ some (wr, parts)
  config_mbr_again few places e =
      config_mbr-finished (moved dinfo parts)
      ∙ ap (finished (moved dinfo parts)) (
          ap (λ ps. config_parts (moved dinfo parts) 0 ps (plain dinfo dinfo.skip_lba [])) places
          ∙ config_parts-moved dinfo parts 0 dinfo.part_lst dinfo.skip_lba dinfo.skip_lba []
              (omega arith))
      ∙ finished_again _
          (omega (arith, ap length places, length-placed_from dinfo dinfo.part_lst dinfo.skip_lba))
          (sym (config_mbr-finished dinfo) ∙ e)
