-- ===== src/Gpt/Edit.antt =====
-- How libgpt/gpt.c changes a table in memory: `gpt_new`, `gpt_copy`, `gpt_entry_create`,
-- `gpt_entry_delete`, `gpt_entry_set_type`, `gpt_entry_get_size`.
pub mod Laws
pub mod Create
use platform_bootable_iago.Base.{
  ℕ, ◌+◌, ◌-◌, ◌*◌, ◌/◌, ◌%◌, ◌^◌, Bool, true, false, List, [], ◌∷◌, Option, none, some, ◌==◌,
  if◌then◌else◌, take, replicate, u32, u64,
}
use platform_bootable_iago.Gpt.Guid.{Guid, PartType, get_guid_type, generate_uuid}
use platform_bootable_iago.Gpt.Entry.{Entry, zero_entry, zero_guid}
use platform_bootable_iago.Gpt.Header.{Header, efi_part, header_bytes}
use platform_bootable_iago.Gpt.Name.{gpt_entry_set_name}
use platform_bootable_iago.Gpt.Table.{
  Gpt, entry_at, set_entry, gpt_entry_get, gpt_next_index, entry_bytes,
}

-- `header_size`, the usable area and the disk GUID are filled in; the addresses and checksums are
-- left 0 until the table is written. `none` is the division by a block size of 0; the flag is
-- false where no UUID can be made, and the old entries then stay.
abbrev new_header : Gpt → Header
new_header g =
    let gpt_sz = 1 + 128 * entry_bytes / g.lba_size in
    record {
      sig = efi_part;
      revision = 0x00010000;
      header_size = header_bytes;
      crc32 = 0;
      reserved_zero = 0;
      current_lba = 0;
      backup_lba = 0;
      first_usable_lba = 1 + gpt_sz;
      last_usable_lba = u64 (g.sectors + 2 ^ 64 - (1 + gpt_sz));
      disk_guid = zero_guid;
      pentry_start_lba = 0;
      num_pentries = 128;
      pentry_size = entry_bytes;
      pentry_crc32 = 0;
    }

unfoldable pub gpt_new : Option (List ℕ) → Gpt → Option (Bool × Gpt)
gpt_new random g = if g.lba_size == 0 then none else elim (generate_uuid random) [
  | none ↦ some (false, record g { header = new_header g })
  | some uuid ↦ some (
    true,
    record g {
      header = record (new_header g) { disk_guid = uuid };
      entries = replicate (128 * entry_bytes) 0;
    },
  )
]

-- The copy has an array of the size that the header gives.
unfoldable pub gpt_copy : Gpt → Gpt
gpt_copy g = record g {
  entries = take (u32 (g.header.num_pentries * g.header.pentry_size)) g.entries;
}

unfoldable pub gpt_entry_set_type : Entry → PartType → Entry
gpt_entry_set_type e type = record e { type_guid = get_guid_type type }

-- In bytes; 64-bit arithmetic.
unfoldable pub gpt_entry_get_size : Gpt → Entry → ℕ
gpt_entry_get_size g e = u64 (u64 (u64 (e.last_lba + 1) + 2 ^ 64 - e.first_lba) * g.lba_size)

-- The entry goes into the first free slot. The early returns leave that slot as far as it was
-- filled in: `random` is what `generate_uuid` reads.
unfoldable pub gpt_entry_create : Gpt → List ℕ → PartType → ℕ → ℕ → ℕ → Option (List ℕ) → ℕ × Gpt
gpt_entry_create g name type flags first_lba last_lba random =
    let i = gpt_next_index g in
    elim (gpt_entry_get i g) [
      | none ↦ (0, g)
      | some e ↦
          let placed : Entry = record e {
            flags = flags;
            first_lba = first_lba;
            last_lba = last_lba;
          } in
          elim (gpt_entry_set_name placed name) [
            | none ↦ (0, set_entry i placed g)
            | some named ↦
                let typed = gpt_entry_set_type named type in
                elim (generate_uuid random) [
                  | none ↦ (0, set_entry i typed g)
                  | some uuid ↦ (i, set_entry i (record typed { part_guid = uuid }) g)
                ]
          ]
    ]

-- The flag is false for the -1 of an index outside the table.
unfoldable pub gpt_entry_delete : Gpt → ℕ → Bool × Gpt
gpt_entry_delete g i = elim (gpt_entry_get i g) [
  | none ↦ (false, g)
  | some e ↦ (true, set_entry i zero_entry g)
]
