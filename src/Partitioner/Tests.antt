-- ===== src/Partitioner/Tests.antt =====
-- Runs of the model of installer/partitioner.c, and its theorems at a concrete disk and options.
use platform_bootable_iago.Base.{
  ℕ, ◌+◌, ◌-◌, ◌*◌, ◌^◌, ◌≤◌, ◌≡◌, refl, arith, List, [], ◌∷◌, ◌++◌, none, some, true, bytes_eq,
  replicate,
}
use platform_bootable_iago.Gpt.Guid.{part_linux}
use platform_bootable_iago.Gpt.Entry.{decode_entry}
use platform_bootable_iago.Gpt.Table.{Gpt, entry_at, gpt_entry_offset, used_from, partitions}
use platform_bootable_iago.Gpt.Table.Slots.{free_from}
use platform_bootable_iago.Gpt.FreeSpace.{
  gpt_find_contiguous_free_space, sort_regions, scan_gaps, largest_update,
}
use platform_bootable_iago.Options.{
  get_or_die, entries_of, cut, iterate, string_list_iterate, xatoll, signed_number, number,
  digits_from,
}
use platform_bootable_iago.Partitioner.Sizes.{
  to_mib, to_unit_ceiling, round_up_to_multiple, to_mib_floor, mib_to_lba,
}
use platform_bootable_iago.Partitioner.Sizes.Laws.{mib_to_lba-within}
use platform_bootable_iago.Partitioner.Android.{bootloader}
use platform_bootable_iago.Partitioner.Create.{
  Session, get_partial_space_required, sumsizes_cb, mkpart_cb, create_android_partitions,
  partition_key, len_field, string_to_type,
}
use platform_bootable_iago.Partitioner.Create.Wants.{Wants}
use platform_bootable_iago.Partitioner.Create.Layout.{Plan, Done}
use platform_bootable_iago.Partitioner.Create.Skip.{unskipped}
use platform_bootable_iago.Partitioner.Create.Whole.{
  begun, Prepared, Planned, create_android_partitions_lem, create_android_partitions_wraps,
}
use platform_bootable_iago.Partitioner.Samples.{
  lookup, pairs, empty, misc, data_name, partlist, options, entropy, empty-IsTable, empty-IsLaidOut,
}

abbrev plan : Plan
plan = (misc, 16) ∷ (data_name, 462) ∷ []

-- "bootloader misc data", of which the bootloader is skipped.
abbrev dual_list : List ℕ
dual_list = bootloader ++ (32 ∷ partlist)

abbrev required : ℕ
required = 48 * 2 ^ 20

found : gpt_find_contiguous_free_space empty ≡ some (34, 1048542)
unfolding gpt_find_contiguous_free_space sort_regions scan_gaps largest_update partitions used_from
    entry_at decode_entry gpt_entry_offset replicate
found = refl

need : get_partial_space_required pairs options (32 * 2 ^ 20) ≡ some required
unfolding get_partial_space_required string_list_iterate iterate entries_of cut sumsizes_cb xatoll
    signed_number number digits_from get_or_die lookup bytes_eq
need = refl

bounds : (to_mib (34 * 512) ≡ 1) × (to_mib_floor (1048543 * 512) ≡ 511) × (to_mib required ≡ 48)
unfolding to_mib to_mib_floor to_unit_ceiling round_up_to_multiple
bounds = (refl, refl, refl)

prepared :
    Prepared pairs options entropy empty true dual_list
      (b'3' ∷ b'2' ∷ [])
      (32 * 2 ^ 20)
      required
      34
      1048542
      plan
unfolding get_or_die lookup bytes_eq
prepared = record {
  table = empty-IsTable;
  laid_out = empty-IsLaidOut;
  usable = omega arith;
  block = omega arith;
  fits = omega arith;
  small = omega arith;
  need = need;
  found = found;
  bootloader_len = refl;
  whole = omega (arith, bounds);
  enough = omega (arith, bounds);
}

abbrev first_session : Session pairs
first_session =
    begun pairs options entropy empty true dual_list (b'3' ∷ b'2' ∷ []) (32 * 2 ^ 20) required 34
      1048542 plan

misc-Wants : Wants pairs first_session misc 16
unfolding get_or_die lookup bytes_eq string_list_iterate iterate entries_of cut xatoll signed_number
    number digits_from string_to_type
misc-Wants = record {
  not_skipped = refl;
  short = omega arith;
  chars = omega arith;
  flags_list = [];
  ptype = b'e' ∷ b'x' ∷ b't' ∷ b'4' ∷ [];
  len = b'1' ∷ b'6' ∷ [];
  flags = 0;
  part_mb = 16;
  type = part_linux;
  flags_opt = refl;
  type_opt = refl;
  len_opt = refl;
  flags_ok = refl;
  len_ok = refl;
  type_ok = refl;
  size = refl;
  some_mb = omega arith;
}

data_name-Wants : Wants pairs first_session data_name 462
unfolding get_or_die lookup bytes_eq string_list_iterate iterate entries_of cut xatoll signed_number
    number digits_from string_to_type to_mib to_mib_floor to_unit_ceiling round_up_to_multiple
data_name-Wants = record {
  not_skipped = refl;
  short = omega arith;
  chars = omega arith;
  flags_list = [];
  ptype = b'e' ∷ b'x' ∷ b't' ∷ b'4' ∷ [];
  len = b'-' ∷ b'1' ∷ [];
  flags = 0;
  part_mb = 2 ^ 64 - 1;
  type = part_linux;
  flags_opt = refl;
  type_opt = refl;
  len_opt = refl;
  flags_ok = refl;
  len_ok = refl;
  type_ok = refl;
  size = refl;
  some_mb = omega arith;
}

planned :
    Planned pairs options entropy empty true dual_list
      (b'3' ∷ b'2' ∷ [])
      (32 * 2 ^ 20)
      required
      34
      1048542
      plan
unfolding entries_of cut free_from entry_at decode_entry gpt_entry_offset replicate unskipped
    bytes_eq
planned = record {
  entries = refl;
  wants = (misc-Wants, (data_name-Wants, tt));
  fits_in = omega (arith, bounds);
  slots = omega arith;
  random = (refl, omega arith, (refl, omega arith, tt));
}

create_android_partitions_lem_example :
    (s' : Session pairs) × (create_android_partitions pairs
        (32 * 2 ^ 20)
        dual_list
        empty
        true
        options
        entropy
      ≡ some s')
    × Done pairs plan 1048542 first_session s'
create_android_partitions_lem_example =
    create_android_partitions_lem pairs options entropy empty true dual_list (b'3' ∷ b'2' ∷ [])
      (32 * 2 ^ 20) required 34 1048542 plan prepared planned

-- An empty table for a disk whose usable blocks are fewer than those of 1 MiB.
abbrev tiny : Gpt
tiny = record empty { header = record empty.header { last_usable_lba = 1000 } }

tiny_found : gpt_find_contiguous_free_space tiny ≡ some (34, 1000)
unfolding gpt_find_contiguous_free_space sort_regions scan_gaps largest_update partitions used_from
    entry_at decode_entry gpt_entry_offset replicate
tiny_found = refl

tiny_bounds : (to_mib (34 * 512) ≡ 1) × (to_mib_floor (1001 * 512) ≡ 0)
unfolding to_mib to_mib_floor to_unit_ceiling round_up_to_multiple
tiny_bounds = (refl, refl)

bootloader_len :
    get_or_die pairs none (partition_key bootloader len_field) options ≡ some (b'3' ∷ b'2' ∷ [])
unfolding get_or_die lookup bytes_eq
bootloader_len = refl

create_android_partitions_wraps_example :
    create_android_partitions pairs (32 * 2 ^ 20) partlist tiny true options entropy
    ≡ string_list_iterate partlist (mkpart_cb pairs) (
        begun pairs options entropy tiny true partlist
          (b'3' ∷ b'2' ∷ [])
          (32 * 2 ^ 20)
          required
          34
          1000
          plan)
create_android_partitions_wraps_example =
    create_android_partitions_wraps pairs options entropy tiny true partlist (b'3' ∷ b'2' ∷ [])
      (32 * 2 ^ 20) required 34 1000 plan (omega arith) need tiny_found bootloader_len
      (omega (arith, tiny_bounds))

mib_to_lba-within_example : (34 ≤ mib_to_lba empty 5) × (mib_to_lba empty 5 ≤ 1048542 + 1)
mib_to_lba-within_example =
    mib_to_lba-within empty 34 1048542 (λ e. omega arith) (omega arith) (omega arith) 5
      (omega (arith, bounds)) (omega (arith, bounds))
