-- ===== src/Gpt/Edit/Laws.antt =====
-- `gpt_new` and `gpt_entry_get_size` of libgpt/gpt.c.
use platform_bootable_iago.Base.{
  ℕ, ◌+◌, ◌-◌, ◌*◌, ◌/◌, ◌^◌, ◌≤◌, ◌<◌, ◌≡◌, ◌≢◌, refl, ap, ◌∙◌, arith, List, some, true, false,
  All, IsByte, length, ◌==◌, replicate, length-replicate, All-replicate, slice-replicate, codes,
}
use platform_bootable_iago.Gpt.Guid.{Guid, IsGuid}
use platform_bootable_iago.Gpt.Guid.Laws.{generate_uuid-IsUuid}
use platform_bootable_iago.Gpt.Entry.{decode_entry}
use platform_bootable_iago.Gpt.Entry.Laws.{decode_entry-zero}
use platform_bootable_iago.Gpt.Header.{IsHeader}
use platform_bootable_iago.Gpt.Table.{
  Gpt, IsTable, InTable, entry_at, entry_bytes, gpt_entry_offset,
}
use platform_bootable_iago.Gpt.Table.Laws.{gpt_entry_offset-eq}
use platform_bootable_iago.Gpt.Table.Scan.{IsFree}
use platform_bootable_iago.Gpt.Edit.{new_header, gpt_new}

-- The blocks of an array of 128 entries, where the block size divides it.
abbrev pub array_blocks : Gpt → ℕ
array_blocks g = 128 * entry_bytes / g.lba_size

-- An empty table of 128 entries of 128 bytes, with the signature, revision and size of a header, for
-- a disk of `sectors` blocks: every slot is free, and the usable area lies
-- between the two copies of header and array, the one from block 1 on and the one that ends with
-- the last block.
pub record IsNew (g g' : Gpt) : Type 0 where
  pub table : IsTable g'
  pub header : IsHeader g'.header
  pub sig : g'.header.sig ≡ codes "EFI PART"
  pub revision : g'.header.revision ≡ 0x00010000
  pub header_size : g'.header.header_size ≡ 92
  pub num_pentries : g'.header.num_pentries ≡ 128
  pub pentry_size : g'.header.pentry_size ≡ 128
  pub empty : (j : ℕ) → InTable j g' → IsFree j g'
  pub first : g'.header.first_usable_lba ≡ 2 + array_blocks g
  pub last : g'.header.last_usable_lba + 1 ≡ g.sectors - 1 - array_blocks g
  pub place : (g'.lba_size ≡ g.lba_size) × (g'.sectors ≡ g.sectors) × (g'.device ≡ g.device)

quotient_le : (a b : ℕ) → a / b ≤ a
quotient_le a b = omega arith

module _ (g : Gpt) (random : List ℕ) where
  abbrev fresh : Guid → Gpt
  fresh uuid = record g {
    header = record (new_header g) { disk_guid = uuid };
    entries = replicate (128 * entry_bytes) 0;
  }

  fresh-IsTable : (uuid : Guid) → IsTable (fresh uuid)
  fresh-IsTable uuid = record {
    stride = omega arith;
    small = omega arith;
    room = length-replicate (128 * entry_bytes) 0;
    bytes = All-replicate IsByte (128 * entry_bytes) 0 (omega arith);
  }

  fresh-IsHeader : (uuid : Guid) → IsGuid uuid → IsHeader (fresh uuid).header
  fresh-IsHeader uuid v = record {
    sig_len = omega arith;
    revision_wide = omega arith;
    size_wide = omega arith;
    crc_wide = omega arith;
    reserved_wide = omega arith;
    current_wide = omega arith;
    backup_wide = omega arith;
    first_wide = omega (arith, quotient_le 16384 g.lba_size);
    last_wide = omega arith;
    guid_ok = v;
    start_wide = omega arith;
    num_wide = omega arith;
    stride_wide = omega arith;
    pcrc_wide = omega arith;
  }

  fresh-IsFree : (uuid : Guid) (j : ℕ) → InTable j (fresh uuid) → IsFree j (fresh uuid)
  unfolding entry_at
  fresh-IsFree uuid j h =
      ap (λ bs. (decode_entry bs).first_lba)
        (slice-replicate (gpt_entry_offset j (fresh uuid)) entry_bytes (128 * entry_bytes) 0 inside)
      ∙ decode_entry-zero
    where
      inside : gpt_entry_offset j (fresh uuid) + entry_bytes ≤ 128 * entry_bytes
      inside =
          let (_, fits) = gpt_entry_offset-eq j (fresh-IsTable uuid) h in
          omega (arith, fits, length-replicate {A = ℕ} (128 * entry_bytes) 0)

  -- For a disk with a block size, room for both copies and fewer than 2^64 blocks, and with 16 random
  -- bytes, `gpt_new` makes an empty table of 128 entries of 128 bytes, whose usable area lies between
  -- the two copies of header and array.
  pub gpt_new_lem :
      g.lba_size ≢ 0
      → 4 + 2 * array_blocks g ≤ g.sectors
      → g.sectors < 2 ^ 64
      → length random ≡ 16
      → All IsByte random
      → (g' : Gpt) × (gpt_new (some random) g ≡ some (true, g')) × IsNew g g'
  unfolding gpt_new
  gpt_new_lem nonzero big wide long bytes =
      let (uuid, made, is_uuid) = generate_uuid-IsUuid random long bytes in
      (
        fresh uuid,
        rw (not_zero, made, gpt_new),
        record {
          table = fresh-IsTable uuid;
          header = fresh-IsHeader uuid is_uuid.guid;
          sig = refl;
          revision = refl;
          header_size = refl;
          num_pentries = refl;
          pentry_size = refl;
          empty = fresh-IsFree uuid;
          first = omega arith;
          last = omega (arith, quotient_le 16384 g.lba_size);
          place = (refl, refl, refl);
        },
      )
    where
      not_zero : (g.lba_size == 0) ≡ false
      not_zero = ground arith
