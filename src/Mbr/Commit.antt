-- ===== src/Mbr/Commit.antt =====
-- What editdisklbl/config_mbr.c `config_mbr` puts on a disk of at most four partitions.
use platform_bootable_iago.Base.{
  ℕ, zero, suc, ◌+◌, ◌-◌, ◌^◌, ◌≤◌, ◌<◌, ◌≡◌, refl, ap, ◌∙◌, sym, arith, false, Bool-cases, inl,
  inr, List, [], ◌∷◌, All, Option, none, some, ltb, lt→leb, ◌==◌, if◌then◌else◌, length, bit_and,
  replicate, u32,
}
use mathlib.Core.Path.{subst}
use mathlib.Core.Option.{some-injective, none-ne-some}
use platform_bootable_iago.Mbr.{
  PartInfo, DiskInfo, WriteItem, Config, pentry_offset, cfg_pentry, to_lba, fill, mk_pri_pentry,
  extend, no_space, head_part, config_part, config_parts, blank, fill_blank, is_some,
}

pub length-cfg_pentry : (status type start len : ℕ) → length (cfg_pentry status type start len) ≡ 16
unfolding cfg_pentry replicate
length-cfg_pentry status type start len = elim (Bool-cases (ltb 0 len)) [
  | inl some_len ↦ rw some_len refl
  | inr no_len ↦ rw no_len refl
]

-- An item that lies in the four entries of the MBR.
abbrev pub InEntries : WriteItem → Type 0
InEntries w = (446 ≤ w.offset) × (w.offset + length w.bytes ≤ 510)

module _ (dinfo : DiskInfo) where
  abbrev pub len_lba : PartInfo → ℕ → ℕ
  len_lba p lba =
      if p.len_kb == fill
      then u32 (dinfo.num_lba + 2 ^ 32 - lba)
      else u32 (to_lba p.len_kb dinfo.sect_size)

  -- The item and the place of primary partition `cnt`.
  abbrev pub primary_item : PartInfo → ℕ → ℕ → WriteItem
  primary_item p cnt lba = record {
    offset = pentry_offset cnt;
    bytes = cfg_pentry (if bit_and p.flags 1 == 0 then 0 else 0x80) p.type lba (len_lba p lba);
  }

  pub mk_pri_pentry-some :
      (p : PartInfo) (cnt lba : ℕ)
      → cnt < 4
      → mk_pri_pentry dinfo p cnt lba
        ≡ some (primary_item p cnt lba, record p { start_lba = lba }, u32 (lba + len_lba p lba))
  unfolding mk_pri_pentry
  mk_pri_pentry-some p cnt lba lt = rw (lt→leb 4 cnt lt) refl

  primary-InEntries : (p : PartInfo) (cnt lba : ℕ) → cnt < 4 → InEntries (primary_item p cnt lba)
  primary-InEntries p cnt lba lt = omega (
    arith,
    length-cfg_pentry (if bit_and p.flags 1 == 0 then 0 else 0x80) p.type lba (len_lba p lba),
  )

  -- The state of the loop as long as there is no extended partition.
  abbrev pub plain : ℕ → List WriteItem → Config
  plain lba wr = record { cur_lba = lba; ext_lba = 0; extended = false; wr_list = wr }

  -- The state behind primary partition `cnt`.
  abbrev pub behind : PartInfo → ℕ → ℕ → List WriteItem → Config
  behind p cnt lba wr = plain (u32 (lba + len_lba p lba)) (primary_item p cnt lba ∷ wr)

  not_due :
      (cnt : ℕ) (ps : List PartInfo) (c : Config)
      → cnt + suc (length ps) ≤ 4
      → extend dinfo cnt (is_some (head_part ps)) c ≡ some c
  unfolding extend
  not_due cnt [] c h = elim (Bool-cases (cnt == 3)) [ inl e ↦ rw e refl | inr e ↦ rw e refl ]
  not_due cnt (q ∷ ps) c h = rw (earlier cnt (omega arith)) refl
    where
      earlier : (n : ℕ) → n < 3 → (n == 3) ≡ false
      earlier n lt = ground arith

  -- As long as there are no more than four partitions, each is a primary one.
  pub config_part-eq :
      (cnt : ℕ) (p : PartInfo) (ps : List PartInfo) (lba : ℕ) (wr : List WriteItem)
      → cnt + suc (length ps) ≤ 4
      → config_part dinfo cnt p ps (plain lba wr) ≡ (
          if no_space dinfo p (plain lba wr)
          then none
          else some (record p { start_lba = lba }, behind p cnt lba wr))
  unfolding config_part
  config_part-eq cnt p ps lba wr h =
      rw (not_due cnt ps (plain lba wr) h, mk_pri_pentry-some p cnt lba (omega arith), config_part)
        refl

  -- The partitions with their places, one after the other from a block on.
  abbrev pub placed_from : List PartInfo → ℕ → List PartInfo
  placed_from [] lba = []
  placed_from (p ∷ ps) lba =
      record p { start_lba = lba } ∷ placed_from ps (u32 (lba + len_lba p lba))

  pub tail_some :
      (r : Option (List PartInfo × Config)) (p : PartInfo) (qs : List PartInfo) (c : Config)
      → elim r as (λ x. Option (List PartInfo × Config)) [
        | none ↦ none
        | some (ps', c') ↦ some (p ∷ ps', c')
      ]
        ≡ some (qs, c)
      → (ps : List PartInfo) × (r ≡ some (ps, c)) × (qs ≡ p ∷ ps)
  tail_some none p qs c e = absurd (none-ne-some (qs, c) e)
  tail_some (some (ps, c')) p qs c e =
      let same = some-injective (p ∷ ps, c') (qs, c) e in
      (ps, ap (λ x. some (ps, x)) (ap (λ x. x.1) same), sym (ap (λ x. x.0) same))

  pub config_parts-primary :
      (cnt : ℕ) (ps qs : List PartInfo) (lba : ℕ) (wr : List WriteItem) (c' : Config)
      → cnt + length ps ≤ 4
      → All InEntries wr
      → config_parts dinfo cnt ps (plain lba wr) ≡ some (qs, c')
      → (qs ≡ placed_from ps lba) × All InEntries c'.wr_list
  unfolding config_parts
  config_parts-primary cnt [] qs lba wr c' h items e =
      let same = some-injective ([], plain lba wr) (qs, c') e in
      (sym (ap (λ x. x.0) same), subst (λ x. All InEntries x.wr_list) (ap (λ x. x.1) same) items)
  config_parts-primary cnt (p ∷ ps) qs lba wr c' h items e =
      elim (Bool-cases (no_space dinfo p (plain lba wr))) [
        | inl full ↦
            absurd (
              none-ne-some (qs, c')
                (rw (config_part-eq cnt p ps lba wr h, full, config_parts) at e))
        | inr room ↦
            let (rs, rest, split) =
              tail_some (config_parts dinfo (cnt + 1) ps (behind p cnt lba wr))
                (record p { start_lba = lba }) qs c'
                (rw (config_part-eq cnt p ps lba wr h, room, config_parts) at e) in
            let (places, all) =
              config_parts-primary (cnt + 1) ps rs (u32 (lba + len_lba p lba))
                (primary_item p cnt lba ∷ wr) c' (omega arith)
                (primary-InEntries p cnt lba (omega arith), items) rest in
            (split ∙ ap (◌∷◌ (record p { start_lba = lba })) places, all)
      ]

  pub length-placed_from : (ps : List PartInfo) (lba : ℕ) → length (placed_from ps lba) ≡ length ps
  length-placed_from [] lba = refl
  length-placed_from (p ∷ ps) lba = ap suc (length-placed_from ps (u32 (lba + len_lba p lba)))

  pub fill_blank-some :
      (n cnt : ℕ) (wr : List WriteItem)
      → cnt + n ≤ 4
      → All InEntries wr
      → (wr' : List WriteItem) × (fill_blank n cnt dinfo wr ≡ some wr') × All InEntries wr'
  unfolding fill_blank
  fill_blank-some zero cnt wr h items = (wr, refl, items)
  fill_blank-some (suc n) cnt wr h items =
      let (wr', e, all) =
        fill_blank-some n (cnt + 1) (primary_item blank cnt 0 ∷ wr) (omega arith)
          (primary-InEntries blank cnt 0 (omega arith), items) in
      (wr', rw (mk_pri_pentry-some blank cnt 0 (omega arith), fill_blank) e, all)
