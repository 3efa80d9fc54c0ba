-- ===== src/Partitioner/Dialog/Tests.antt =====
-- Runs of the dialog of installer/partitioner.c `partitioner_cli`, and its theorem at one of them.
use platform_bootable_iago.Base.{◌*◌, ◌^◌, ◌≡◌, refl, arith, [], ◌∷◌, none, some, true, false}
use platform_bootable_iago.Partitioner.Sizes.{
  to_mib, to_mib_floor, to_unit_ceiling, round_up_to_multiple,
}
use platform_bootable_iago.Partitioner.Dialog.{
  ui_get_value, DiskSizes, Answers, dual_boot, whole_disk, keep_windows, erase, partitioner_cli,
}
use platform_bootable_iago.Partitioner.Dialog.Laws.{HasSizes, HasSpace, partitioner_cli-HasSpace}

-- A disk of 100 GiB that Windows fills; it can be shrunk to 50 GiB.
abbrev sizes : DiskSizes
sizes = record {
  windows = 100 * 2 ^ 30;
  windows_min = 50 * 2 ^ 30;
  disk = 101 * 2 ^ 30;
  android = 0;
  free = 2 ^ 20;
}

-- Dual boot, with a size that is too large and then one that is not.
abbrev answers : Answers
answers = record {
  preserve_windows = true;
  resize_windows = true;
  new_sizes = some 102400 ∷ some 60000 ∷ [];
  erase_disk = false;
}

shrunk :
    partitioner_cli (8 * 2 ^ 30) (16 * 2 ^ 30) sizes answers
    ≡ some (dual_boot (some (60000 * 2 ^ 20)))
unfolding partitioner_cli keep_windows ui_get_value to_mib to_mib_floor to_unit_ceiling
    round_up_to_multiple
shrunk = refl

refused : partitioner_cli (80 * 2 ^ 30) (16 * 2 ^ 30) sizes answers ≡ none
unfolding partitioner_cli keep_windows
refused = refl

wiped :
    partitioner_cli
      (8 * 2 ^ 30)
      (16 * 2 ^ 30)
      sizes
      (record answers { preserve_windows = false; erase_disk = true })
    ≡ some whole_disk
unfolding partitioner_cli erase
wiped = refl

sizes-HasSizes : HasSizes sizes
sizes-HasSizes = record {
  windows = omega arith;
  windows_min = omega arith;
  disk = omega arith;
  android = omega arith;
  free = omega arith;
}

-- With 2^63 bytes required the number is negative, and passes.
negative :
    partitioner_cli 0
      (2 ^ 63)
      sizes
      (record answers { preserve_windows = false; erase_disk = true })
    ≡ some whole_disk
unfolding partitioner_cli erase
negative = refl

partitioner_cli-HasSpace_example :
    HasSpace (8 * 2 ^ 30) (16 * 2 ^ 30) sizes (dual_boot (some (60000 * 2 ^ 20)))
partitioner_cli-HasSpace_example =
    partitioner_cli-HasSpace (8 * 2 ^ 30) (16 * 2 ^ 30) sizes answers
      (dual_boot (some (60000 * 2 ^ 20))) sizes-HasSizes (omega arith) (omega arith) shrunk
