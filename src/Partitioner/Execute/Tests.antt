-- ===== src/Partitioner/Execute/Tests.antt =====
-- Runs of the execution phase of installer/partitioner.c, and its theorem at a concrete disk.
use platform_bootable_iago.Base.{
  ℕ, ◌-◌, ◌*◌, ◌^◌, ◌≡◌, refl, arith, [], ◌∷◌, IsByte, none, some, true, false, bytes_eq, codes,
  replicate, length-replicate, All-replicate,
}
use platform_bootable_iago.Gpt.Guid.{generate_uuid, stamp_uuid, decode_guid, part_linux}
use platform_bootable_iago.Gpt.Table.{Gpt}
use platform_bootable_iago.Gpt.Table.Slots.{free_slots}
use platform_bootable_iago.Gpt.Edit.{gpt_new}
use platform_bootable_iago.Gpt.FreeSpace.Blank.{new-free_slots}
use platform_bootable_iago.Gpt.Init.{atoll, get_sizes, gpt_init}
use platform_bootable_iago.Options.{
  get_or_die, entries_of, cut, iterate, string_list_iterate, xatoll, signed_number, number,
  digits_from,
}
use platform_bootable_iago.Partitioner.Sizes.{
  to_mib, to_unit_ceiling, round_up_to_multiple, to_mib_floor,
}
use platform_bootable_iago.Partitioner.Create.{
  Session, get_partial_space_required, sumsizes_cb, string_to_type,
}
use platform_bootable_iago.Partitioner.Create.Wants.{Wants}
use platform_bootable_iago.Partitioner.Create.Layout.{Plan, Done}
use platform_bootable_iago.Partitioner.Create.Skip.{unskipped}
use platform_bootable_iago.Partitioner.Create.Whole.{Planned}
use platform_bootable_iago.Partitioner.Execute.{
  System, execute_wipe_disk, get_bus_name, split_slash,
}
use platform_bootable_iago.Partitioner.Execute.Laws.{Wiped, wiped, new, execute_wipe_disk_lem}
use platform_bootable_iago.Partitioner.Samples.{
  lookup, pairs, empty, misc, data_name, partlist, options, random, entropy,
}

bus :
    (get_bus_name (codes "../devices/pci0000:00/0000:00:1f.2/ata1")
      ≡ some (codes "pci0000:00/0000:00:1f.2"))
    × (get_bus_name (codes "../devices/platform/mmc.0/mmc_host") ≡ some (codes "mmc.0"))
    × (get_bus_name (codes "../devices/virtual/block/loop0") ≡ none)
unfolding get_bus_name split_slash bytes_eq
bus = (refl, refl, refl)

abbrev blank : Gpt
blank = record empty { entries = [] }

abbrev sys : System
sys = record {
  sysfs = record {
    stats = true;
    logical_block_size = some (codes "512");
    size = some (codes "1048576");
  };
  memory = empty.header;
  ntfs = record { dry_run = true; run = true };
  link = none;
}

init : gpt_init sys.memory empty.device sys.sysfs ≡ some blank
unfolding gpt_init get_sizes atoll digits_from
init = refl

abbrev fresh : Gpt
fresh = record empty {
  header = record empty.header {
    num_pentries = 128;
    disk_guid = record {
      data1 = 0x05050505;
      data2 = 0x0505;
      data3 = 0x4505;
      data4 = 0x85 ∷ replicate 7 5;
    };
  };
  entries = replicate 16384 0;
}

made : gpt_new (some random) blank ≡ some (true, fresh)
unfolding gpt_new generate_uuid stamp_uuid decode_guid replicate
made = refl

abbrev plan : Plan
plan = (misc, 16) ∷ (data_name, 430) ∷ []

abbrev required : ℕ
required = 80 * 2 ^ 20

bootloader_mib : xatoll (codes "32") ≡ some 32
unfolding xatoll signed_number number digits_from
bootloader_mib = refl

need : get_partial_space_required pairs options (64 * 2 ^ 20) ≡ some required
unfolding get_partial_space_required string_list_iterate iterate entries_of cut sumsizes_cb xatoll
    signed_number number digits_from get_or_die lookup bytes_eq
need = refl

bounds : (to_mib (34 * 512) ≡ 1) × (to_mib_floor (1048543 * 512) ≡ 511) × (to_mib required ≡ 80)
unfolding to_mib to_mib_floor to_unit_ceiling round_up_to_multiple
bounds = (refl, refl, refl)

wiped_disk :
    Wiped pairs options entropy blank fresh partlist
      (codes "32")
      random
      32
      (64 * 2 ^ 20)
      required
      plan
unfolding get_or_die lookup bytes_eq
wiped_disk = record {
  disk = record {
    block = omega arith;
    fits = omega arith;
    big = omega arith;
    few = omega arith;
    small = omega arith;
  };
  long = length-replicate {A = ℕ} 16 5;
  bytes = All-replicate IsByte 16 5 (omega arith);
  made = made;
  number_ok = bootloader_mib;
  twice = refl;
  no_wrap = omega arith;
  need = need;
  bootloader_len = refl;
  whole = omega (arith, bounds);
  enough = omega (arith, bounds);
}

abbrev session : Session pairs
session =
    wiped pairs options entropy blank fresh partlist (codes "32") random 32 (64 * 2 ^ 20) required
      plan

misc-Wants : Wants pairs session misc 16
unfolding get_or_die lookup bytes_eq string_list_iterate iterate entries_of cut xatoll signed_number
    number digits_from string_to_type
misc-Wants = record {
  not_skipped = refl;
  short = omega arith;
  chars = omega arith;
  flags_list = [];
  ptype = codes "ext4";
  len = codes "16";
  flags = 0;
  part_mb = 16;
  type = part_linux;
  flags_opt = refl;
  type_opt = refl;
  len_opt = refl;
  flags_ok = refl;
  len_ok = refl;
  type_ok = refl;
  size = refl;
  some_mb = omega arith;
}

data_name-Wants : Wants pairs session data_name 430
unfolding get_or_die lookup bytes_eq string_list_iterate iterate entries_of cut xatoll signed_number
    number digits_from string_to_type to_mib to_mib_floor to_unit_ceiling round_up_to_multiple
data_name-Wants = record {
  not_skipped = refl;
  short = omega arith;
  chars = omega arith;
  flags_list = [];
  ptype = codes "ext4";
  len = codes "-1";
  flags = 0;
  part_mb = 2 ^ 64 - 1;
  type = part_linux;
  flags_opt = refl;
  type_opt = refl;
  len_opt = refl;
  flags_ok = refl;
  len_ok = refl;
  type_ok = refl;
  size = refl;
  some_mb = omega arith;
}

slots : free_slots fresh ≡ 128
slots =
    new-free_slots blank fresh
      (new pairs options entropy blank fresh partlist (codes "32") random 32 (64 * 2 ^ 20) required
        plan wiped_disk)
      wiped_disk.disk.big wiped_disk.disk.few

planned :
    Planned pairs options entropy fresh false partlist
      (codes "32")
      (64 * 2 ^ 20)
      required
      34
      1048542
      plan
unfolding entries_of cut replicate unskipped
planned = record {
  entries = refl;
  wants = (misc-Wants, (data_name-Wants, tt));
  fits_in = omega (arith, bounds);
  slots = omega (arith, slots);
  random = (refl, omega arith, (refl, omega arith, tt));
}

execute_wipe_disk_lem_example :
    (s' : Session pairs) × (execute_wipe_disk pairs sys partlist empty.device options
        (some random ∷ entropy)
      ≡ some s')
    × Done pairs plan 1048542 session s'
execute_wipe_disk_lem_example =
    execute_wipe_disk_lem pairs options entropy blank fresh partlist (codes "32") random 32
      (64 * 2 ^ 20) required plan wiped_disk sys empty.device init planned
