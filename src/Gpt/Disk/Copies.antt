-- ===== src/Gpt/Disk/Copies.antt =====
-- The two copies of a table in libgpt/gpt.c `gpt_write`: what is written, and where.
use platform_bootable_iago.Base.{
  ℕ, suc, ◌+◌, ◌-◌, ◌*◌, ◌/◌, ◌^◌, ◌≤◌, ◌<◌, ◌≡◌, refl, ap, ap₂, ◌∙◌, arith, List, [], length, take,
  splice, length-splice, true, u64, take-all,
}
use native.Mathlib.Nat.{mul-div_cancel}
use platform_bootable_iago.Device.{Device, success, write_at, and_then}
use platform_bootable_iago.Device.Laws.{Reachable, write_at-splice}
use platform_bootable_iago.Gpt.Header.{IsHeader, encode_header, header_bytes}
use platform_bootable_iago.Gpt.Header.Laws.{length-encode_header}
use platform_bootable_iago.Gpt.Table.{Gpt, IsTable}
use platform_bootable_iago.Gpt.Edit.{gpt_copy}
use platform_bootable_iago.Gpt.Disk.{
  Host, entries_size, protective_mbr, placed, sealed, write_gpt_to_disk, primary_copy, backup_copy,
}

-- A table that the disk has room for: its array takes `k` whole blocks, and the disk holds two
-- copies of it, two headers and the MBR, at signed 64-bit offsets.
pub record Fits (g : Gpt) (dev : Device) (k : ℕ) : Type 0 where
  pub table : IsTable g
  pub header : IsHeader g.header
  pub blocks : g.header.num_pentries * g.header.pentry_size ≡ k * g.lba_size
  pub block : 512 ≤ g.lba_size
  pub enough : 3 + 2 * k ≤ g.sectors
  pub room : g.sectors * g.lba_size ≤ length dev.bytes
  pub small : g.sectors * g.lba_size < 2 ^ 63
  pub open_ok : dev.opens ≡ true

pub entries_size-eq : {g : Gpt} → IsTable g → entries_size g ≡ length g.entries
entries_size-eq t = let r = t.room in let s = t.small in omega arith

pub take-entries : {g : Gpt} → IsTable g → take (entries_size g) g.entries ≡ g.entries
take-entries {g} t = take-all (entries_size g) g.entries (omega (arith, entries_size-eq t))

gpt_copy-eq : {g : Gpt} → IsTable g → gpt_copy g ≡ g
unfolding gpt_copy
gpt_copy-eq {g} t = ap (λ es. record g { entries = es }) (take-entries t)

pub length-protective_mbr : (n : ℕ) → length (protective_mbr n) ≡ 72
unfolding protective_mbr
length-protective_mbr n = refl

module _ (host : Host) where
  pub length-sealed :
      (g : Gpt) → IsHeader g.header → length (encode_header (sealed host g)) ≡ header_bytes
  unfolding sealed
  length-sealed g v = length-encode_header _ v.sig_len v.guid_ok.eight

  -- `write_gpt_to_disk` writes the header with its checksums, then the array.
  pub write_gpt_to_disk_eq :
      (g : Gpt) (dev : Device) (oh oa : ℕ)
      → u64 (g.header.current_lba * g.lba_size) ≡ oh
      → u64 (g.header.pentry_start_lba * g.lba_size) ≡ oa
      → take (entries_size g) g.entries ≡ g.entries
      → Reachable dev oh (length (encode_header (sealed host g)))
      → Reachable dev oa (length g.entries)
      → dev.sched ≡ []
      → write_gpt_to_disk host g dev ≡ (
        success,
        record dev {
          bytes = splice oa g.entries (splice oh (encode_header (sealed host g)) dev.bytes);
          sched = [];
        },
      )
  unfolding write_gpt_to_disk
  write_gpt_to_disk_eq g dev oh oa eh ea whole rh ra calm =
      ap
        (λ o. and_then (write_at dev o header) (λ d.
          write_at d (u64 (g.header.pentry_start_lba * g.lba_size))
            (take (entries_size g) g.entries)))
        eh
      ∙ ap
          (λ r. and_then r (λ d.
            write_at d (u64 (g.header.pentry_start_lba * g.lba_size))
              (take (entries_size g) g.entries)))
          (write_at-splice dev oh header rh calm)
      ∙ ap₂ (write_at middle) ea whole
      ∙ write_at-splice middle oa g.entries still refl
    where
      header : List ℕ
      header = encode_header (sealed host g)

      middle : Device
      middle = record dev { bytes = splice oh header dev.bytes; sched = [] }

      still : Reachable middle oa (length g.entries)
      still = record {
        open_ok = ra.open_ok;
        positive = ra.positive;
        inside = let fits = ra.inside in omega (arith, length-splice oh header dev.bytes);
      }

pub placed-IsHeader :
    (g : Gpt) (current backup start : ℕ)
    → IsHeader g.header
    → current < 2 ^ 64
    → backup < 2 ^ 64
    → start < 2 ^ 64
    → IsHeader (placed g current backup start).header
placed-IsHeader g current backup start v hc hb hs = record {
  sig_len = v.sig_len;
  revision_wide = v.revision_wide;
  size_wide = v.size_wide;
  crc_wide = v.crc_wide;
  reserved_wide = v.reserved_wide;
  current_wide = hc;
  backup_wide = hb;
  first_wide = v.first_wide;
  last_wide = v.last_wide;
  guid_ok = v.guid_ok;
  start_wide = hs;
  num_wide = v.num_wide;
  stride_wide = v.stride_wide;
  pcrc_wide = v.pcrc_wide;
}

-- The two tables that are written.
abbrev pub first_copy : Gpt → Gpt
first_copy g = placed g 1 (g.sectors - 1) 2

abbrev pub second_copy : Gpt → ℕ → Gpt
second_copy g k = placed g (g.sectors - 1) 1 (g.sectors - 1 - k)

module _ (g : Gpt) (dev : Device) (k : ℕ) (f : Fits g dev k) where
  pub mul_mono : (a b : ℕ) → a ≤ b → a * g.lba_size ≤ b * g.lba_size
  mul_mono a b h = grind arith

  pub wide : g.sectors ≤ g.sectors * g.lba_size
  wide = let block = f.block in grind arith

  pub last_block : u64 (g.sectors + 2 ^ 64 - 1) ≡ g.sectors - 1
  last_block = let enough = f.enough in let small = f.small in omega (arith, wide)

  array_blocks : entries_size g / g.lba_size ≡ k
  array_blocks =
      let small = f.table.small in
      ap (λ n. n / g.lba_size)
        (let e : entries_size g ≡ k * g.lba_size = omega (arith, f.blocks) in e)
      ∙ mul-div_cancel k (let block = f.block in omega arith)

  array_start : u64 (g.sectors - 1 + 2 ^ 64 - k) ≡ g.sectors - 1 - k
  array_start = let enough = f.enough in let small = f.small in omega (arith, wide)

  pub primary_copy-eq : primary_copy g ≡ first_copy g
  primary_copy-eq =
      ap (λ c. placed c 1 (u64 (c.sectors + 2 ^ 64 - 1)) 2) (gpt_copy-eq f.table)
      ∙ ap (λ l. placed g 1 l 2) last_block

  pub backup_copy-eq : backup_copy g ≡ second_copy g k
  backup_copy-eq =
      ap
        (λ c.
          placed c (u64 (c.sectors + 2 ^ 64 - 1)) 1
            (u64 (u64 (c.sectors + 2 ^ 64 - 1) + 2 ^ 64 - entries_size g / c.lba_size)))
        (gpt_copy-eq f.table)
      ∙ ap (λ l. placed g l 1 (u64 (l + 2 ^ 64 - entries_size g / g.lba_size))) last_block
      ∙ ap (λ n. placed g (g.sectors - 1) 1 (u64 (g.sectors - 1 + 2 ^ 64 - n))) array_blocks
      ∙ ap (placed g (g.sectors - 1) 1) array_start

  -- The byte offsets of the five parts, none of which wraps.
  pub record Offsets : Type 0 where
    pub header1 : u64 (1 * g.lba_size) ≡ g.lba_size
    pub array1 : u64 (2 * g.lba_size) ≡ 2 * g.lba_size
    pub array2 : u64 ((g.sectors - 1 - k) * g.lba_size) ≡ (g.sectors - 1 - k) * g.lba_size
    pub header2 : u64 ((g.sectors - 1) * g.lba_size) ≡ (g.sectors - 1) * g.lba_size
    pub ends1 : 2 * g.lba_size + k * g.lba_size ≤ (g.sectors - 1 - k) * g.lba_size
    pub ends2 : (g.sectors - 1 - k) * g.lba_size + k * g.lba_size ≡ (g.sectors - 1) * g.lba_size
    pub ends3 : (g.sectors - 1) * g.lba_size + g.lba_size ≡ g.sectors * g.lba_size

  pub offsets : Offsets
  offsets =
      let enough = f.enough in
      let small = f.small in
      let last : suc (g.sectors - 1) ≡ g.sectors = omega arith in
      let gap : (g.sectors - 1 - k) + k ≡ g.sectors - 1 = omega arith in
      let ends1 = mul_mono (2 + k) (g.sectors - 1 - k) (omega arith) in
      let ends2 = ap (λ n. n * g.lba_size) gap in
      let ends3 = ap (λ n. n * g.lba_size) last in omega (arith, ends1, ends2, ends3)
