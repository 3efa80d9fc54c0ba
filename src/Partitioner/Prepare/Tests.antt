-- ===== src/Partitioner/Prepare/Tests.antt =====
-- Runs of installer/partitioner.c `partitioner_prepare`, and its theorem at two scans of /sys/block.
use platform_bootable_iago.Base.{
  ℕ, zero, suc, ◌+◌, ◌<◌, ◌≡◌, refl, arith, Bool, true, false, List, [], ◌∷◌, ◌++◌, All, Option,
  none, some, length, bytes_eq, codes, replicate,
}
use mathlib.Core.Path.{subst}
use mathlib.Core.Option.{some-injective}
use platform_bootable_iago.Device.{robust_read, read_at}
use platform_bootable_iago.Gpt.Disk.{Host, gpt_read}
use platform_bootable_iago.Gpt.Init.{atoll, get_sizes, gpt_init}
use platform_bootable_iago.Gpt.Name.{decimal_from}
use platform_bootable_iago.Options.{get_or_die, xatoll, signed_number, number, digits_from}
use platform_bootable_iago.Options.Append.{IsWord, string_list_append}
use platform_bootable_iago.Partitioner.Prepare.{
  BlockDev, chomp, read_sysfs, read_sysfs_int, behind, until_space, parse_min_size, put_sizes,
  prepare_disk, prepare_disks, prepare_from_attempt, partitioner_prepare,
}
use platform_bootable_iago.Partitioner.Prepare.Laws.{HasWord, Found, partitioner_prepare-Found}
use platform_bootable_iago.Partitioner.Samples.{Pairs, lookup, pairs, empty}

min_size :
    parse_min_size (codes "You might resize at 4096 bytes or 1 MB (freeing 9 MB).") ≡ some 4096
unfolding parse_min_size behind until_space bytes_eq xatoll signed_number number digits_from
min_size = refl

abbrev host : Host
host = record { crc32 = λ start bs. start + length bs; crc_start = 7; beyond = [] }

-- A disk without a table, of that name.
abbrev disk : List ℕ → BlockDev
disk name = record {
  name = name;
  size = some (codes "8\n");
  logical_block_size = some (codes "512\n");
  model = some (codes "Disk\n");
  sysfs = record {
    stats = true;
    logical_block_size = some (codes "512\n");
    size = some (codes "8\n");
  };
  device = record { bytes = replicate 512 0; opens = true; sched = [] };
  ntfs = record { check_ok = false; info = none };
}

-- "ram0" is ignored.
abbrev skip : List ℕ → Bool
skip name = bytes_eq name (codes "ram0")

-- At the first attempt only the memory disk and the installation media are there.
abbrev scan : ℕ → Option (List BlockDev)
scan zero = some (disk (codes "ram0") ∷ disk (codes "sdb") ∷ [])
scan (suc k) = some (disk (codes "sda") ∷ disk (codes "sdb") ∷ disk (codes "sdc") ∷ [])

abbrev of_disk : List ℕ → Pairs → Pairs
of_disk name opts =
    (codes "disk." ++ (name ++ codes ":device"), codes "/dev/block/" ++ name)
    ∷ (codes "disk." ++ (name ++ codes ":model"), codes "Disk")
    ∷ (codes "disk." ++ (name ++ codes ":size"), codes "4096")
    ∷ (codes "disk." ++ (name ++ codes ":lba_size"), codes "512")
    ∷ (codes "disk." ++ (name ++ codes ":sectors"), codes "8")
    ∷ opts

abbrev prepared : Pairs
prepared = (codes "base:disks", codes "sda sdc") ∷ of_disk (codes "sdc") (of_disk (codes "sda") [])

run : partitioner_prepare pairs host empty.header skip (codes "sdb") scan [] ≡ some prepared
unfolding partitioner_prepare prepare_from_attempt prepare_disks prepare_disk put_sizes
    read_sysfs_int read_sysfs chomp decimal_from string_list_append gpt_init get_sizes atoll
    get_or_die lookup bytes_eq xatoll signed_number number digits_from gpt_read read_at robust_read
    replicate
run = refl

three : IsWord (codes "sda") × IsWord (codes "sdb") × IsWord (codes "sdc")
three = (
  (omega arith, (refl, (refl, (refl, tt)))),
  (omega arith, (refl, (refl, (refl, tt)))),
  (omega arith, (refl, (refl, (refl, tt)))),
)

scan-HasWord : (k : ℕ) (ds : List BlockDev) → scan k ≡ some ds → All HasWord ds
scan-HasWord zero ds e =
    subst (All HasWord) (some-injective _ ds e)
      ((omega arith, (refl, (refl, (refl, (refl, tt))))), (three.1, tt))
scan-HasWord (suc k) ds e =
    subst (All HasWord) (some-injective _ ds e) (three.0, (three.1, (three.2, tt)))

partitioner_prepare-Found_example :
    (k : ℕ) × (k < 6) × Found pairs skip (codes "sdb") scan prepared k
partitioner_prepare-Found_example =
    partitioner_prepare-Found pairs host empty.header skip (codes "sdb") scan [] prepared
      scan-HasWord run
