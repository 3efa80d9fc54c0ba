-- ===== src/Gpt/Tests.antt =====
-- Runs of the model of libgpt/gpt.c on small tables, and its theorems at concrete tables.
use platform_bootable_iago.Base.{
  replicate, ℕ, ◌≡◌, ◌≢◌, ◌↔◌, refl, ap, arith, List, [], ◌∷◌, some, true, false, All, take, get_or,
}
use platform_bootable_iago.Device.{Outcome, upto, eintr, success}
use platform_bootable_iago.Gpt.Guid.{Guid, part_esp, get_guid_type, generate_uuid}
use platform_bootable_iago.Gpt.Guid.Text.{gpt_guid_to_string, parse_guid, parse_guid-to_string}
use platform_bootable_iago.Gpt.Guid.Laws.{IsUuid, generate_uuid-IsUuid, get_guid_type-IsGuid}
use platform_bootable_iago.Gpt.Entry.{decode_entry, Entry, zero_entry}
use platform_bootable_iago.Gpt.Header.{efi_part, encode_header, decode_header}
use platform_bootable_iago.Gpt.Header.Laws.{decode_header-encode_header}
use platform_bootable_iago.Gpt.Name.{gpt_entry_set_name, gpt_entry_get_name}
use platform_bootable_iago.Gpt.Name.Laws.{get_name-set_name}
use platform_bootable_iago.Gpt.Table.{
  Gpt, InTable, entry_at, gpt_entry_offset, gpt_next_index, partitions,
}
use platform_bootable_iago.Gpt.Table.Scan.{IsFree, partitions_iff}
use platform_bootable_iago.Gpt.Edit.{gpt_new, gpt_entry_create, gpt_entry_delete}
use platform_bootable_iago.Gpt.Edit.Laws.{IsNew, gpt_new_lem}
use platform_bootable_iago.Gpt.Edit.Create.{
  IsFirstFree, Assigned, created, half_created, gpt_entry_create_lem, gpt_entry_create_long,
  gpt_entry_delete_lem,
}
use platform_bootable_iago.Gpt.FreeSpace.{gpt_find_contiguous_free_space}
use platform_bootable_iago.Gpt.FreeSpace.Largest.{IsLargest, gpt_find_contiguous_free_space_lem}
use platform_bootable_iago.Gpt.Disk.{gpt_write, gpt_read}
use platform_bootable_iago.Gpt.Disk.Write.{disk_after}
use platform_bootable_iago.Gpt.Disk.Read.{Ends}
use platform_bootable_iago.Gpt.Disk.Protective.{Protects, gpt_write-Protects}
use platform_bootable_iago.Gpt.Disk.RoundTrip.{
  blank, written_device, damaged, first_found, second_found, gpt_read-gpt_write, gpt_read-damaged,
}
use platform_bootable_iago.Gpt.Samples.{
  host, header_of, table_of, disk, random, boot, long_name, header_of-IsHeader, table_of-IsTable,
  four-Fits, used_entry, used_entry-IsEntry, full, full-IsLaidOut, some_free,
}

partitions_iff_example :
    All (λ p. ¬ (p.1.first_lba ≡ 0)) (partitions full)
    ↔ ((j : ℕ) → InTable j full → ¬ IsFree j full → ¬ ((entry_at j full).first_lba ≡ 0))
partitions_iff_example = partitions_iff full (λ p. ¬ (p.1.first_lba ≡ 0))

decode_header-encode_header_example : decode_header (encode_header (header_of 4)) ≡ header_of 4
decode_header-encode_header_example =
    decode_header-encode_header (header_of 4) (header_of-IsHeader 4 (omega arith))

get_name-set_name_example :
    (e' : Entry) × (gpt_entry_set_name used_entry boot ≡ some e')
    × (gpt_entry_get_name e' ≡ some boot)
get_name-set_name_example =
    get_name-set_name used_entry boot used_entry-IsEntry (omega arith) (omega arith)

generate_uuid-IsUuid_example : (u : Guid) × (generate_uuid (some random) ≡ some u) × IsUuid random u
generate_uuid-IsUuid_example = generate_uuid-IsUuid random refl (omega arith)

parse_guid-to_string_example :
    parse_guid (gpt_guid_to_string (get_guid_type part_esp)) ≡ get_guid_type part_esp
parse_guid-to_string_example =
    parse_guid-to_string (get_guid_type part_esp) (get_guid_type-IsGuid part_esp)

-- A disk with room for two arrays of 128 entries.
abbrev wide_disk : Gpt
wide_disk = record (table_of 0) { sectors = 80 }

gpt_new_lem_example :
    (g' : Gpt) × (gpt_new (some random) wide_disk ≡ some (true, g')) × IsNew wide_disk g'
gpt_new_lem_example =
    gpt_new_lem wide_disk random (λ e. omega arith) (omega arith) (omega arith) refl (omega arith)

slot_1 : (j : ℕ) × InTable j (table_of 4) × IsFree j (table_of 4)
unfolding entry_at decode_entry gpt_entry_offset replicate
slot_1 = (1, (omega arith, omega arith), refl)

gpt_entry_create_lem_example :
    let (r, g') = gpt_entry_create (table_of 4) boot part_esp 1 3 9 (some random) in
    IsFirstFree r (table_of 4)
    × ((uuid : Guid) × IsUuid random uuid
        × Assigned r
            (created (table_of-IsTable 4 (omega arith)) boot part_esp 1 3 9 random r uuid)
            (table_of 4)
            g')
gpt_entry_create_lem_example =
    gpt_entry_create_lem (table_of-IsTable 4 (omega arith)) boot part_esp 1 3 9 random slot_1
      (omega arith) (omega arith) (omega arith) (omega arith) (omega arith) refl (omega arith)

gpt_entry_create_long_example :
    let (r, g') = gpt_entry_create (table_of 4) long_name part_esp 1 3 9 (some random) in
    (r ≡ 0)
    × Assigned
        (gpt_next_index (table_of 4))
        (half_created
          (table_of-IsTable 4 (omega arith))
          long_name
          part_esp
          1
          3
          9
          random
          (gpt_next_index (table_of 4)))
        (table_of 4)
        g'
gpt_entry_create_long_example =
    gpt_entry_create_long (table_of-IsTable 4 (omega arith)) long_name part_esp 1 3 9 random
      some_free (omega arith) (omega arith) (omega arith) (some random) (omega arith)

gpt_find_contiguous_free_space_lem_example : IsLargest full (gpt_find_contiguous_free_space full)
gpt_find_contiguous_free_space_lem_example = gpt_find_contiguous_free_space_lem full full-IsLaidOut

gpt_entry_delete_lem_example :
    let (done, g') = gpt_entry_delete (table_of 4) 2 in
    (InTable 2 (table_of 4) → (done ≡ true) × IsFree 2 g' × Assigned 2 zero_entry (table_of 4) g')
    × (¬ (InTable 2 (table_of 4)) → (done ≡ false) × (g' ≡ table_of 4))
gpt_entry_delete_lem_example =
    gpt_entry_delete_lem (table_of 4) 2 (table_of-IsTable 4 (omega arith))

gpt_write-Protects_example :
    (gpt_write host (table_of 4) disk
      ≡ (success, record disk { bytes = disk_after host (table_of 4) disk 1; sched = [] }))
    × Protects disk.bytes (disk_after host (table_of 4) disk 1) 20
gpt_write-Protects_example = gpt_write-Protects host (table_of 4) disk 1 four-Fits refl

-- Short and interrupted calls.
abbrev calls : List Outcome
calls = upto 1 ∷ eintr ∷ upto 100 ∷ []

gpt_read-gpt_write_example :
    (gpt_write host (table_of 4) disk
      ≡ (success, written_device host (table_of 4) disk 1 four-Fits refl))
    × Ends
        (gpt_read host
          (written_device host (table_of 4) disk 1 four-Fits refl)
          (blank host (table_of 4) disk 1 four-Fits refl (header_of 0) []))
        calls
        (first_found host (table_of 4) disk 1 four-Fits refl)
gpt_read-gpt_write_example =
    gpt_read-gpt_write host (table_of 4) disk 1 four-Fits refl (header_of 0) [] calls refl tt

-- A block's first eight bytes, overwritten.
abbrev junk : List ℕ
junk = 1 ∷ 2 ∷ 3 ∷ 4 ∷ 5 ∷ 6 ∷ 7 ∷ 8 ∷ []

no_sig : take 8 junk ≢ efi_part
no_sig e = absurd (omega (arith, ap (λ bs. get_or bs 0 0) e))

gpt_read-damaged_example :
    (gpt_write host (table_of 4) disk
      ≡ (success, written_device host (table_of 4) disk 1 four-Fits refl))
    × Ends
        (gpt_read host
          (damaged host
            (table_of 4)
            disk
            1
            four-Fits
            refl
            (header_of 0)
            []
            junk
            (omega arith)
            (omega arith)
            no_sig)
          (blank host (table_of 4) disk 1 four-Fits refl (header_of 0) []))
        calls
        (second_found host (table_of 4) disk 1 four-Fits refl)
gpt_read-damaged_example =
    gpt_read-damaged host (table_of 4) disk 1 four-Fits refl (header_of 0) [] junk (omega arith)
      (omega arith) no_sig calls refl tt
