-- ===== src/Partitioner/Dialog.antt =====
-- The decisions of installer/partitioner.c `partitioner_cli`, and installer/util.c `ui_get_value`.
pub mod Laws
mod Tests
use platform_bootable_iago.Base.{
  ℕ, ◌+◌, ◌-◌, ◌*◌, ◌%◌, ◌^◌, Bool, true, false, not, ◌&&◌, ◌||◌, List, [], ◌∷◌, Option, none, some,
  ltb, leb, ◌==◌, if◌then◌else◌, u64,
}
use platform_bootable_iago.Partitioner.Sizes.{to_mib, to_mib_floor}

-- A number that the user enters comes as `strtoull` gives it, and 2^64 or more where it does not
-- fit; `none` is an empty line. The answer is cut to 32 bits. `none` of the result is a dialog that
-- still waits behind the last answer.
unfoldable pub ui_get_value : ℕ → ℕ → ℕ → List (Option ℕ) → Option ℕ
ui_get_value dfl low high [] = none
ui_get_value dfl low high (none ∷ answers) = some dfl
ui_get_value dfl low high (some n ∷ answers) =
    let again = ui_get_value dfl low high answers in
    let result = n % 2 ^ 32 in
    if leb (2 ^ 64) n || ltb result low || ltb high result then again else some result

-- The sizes in bytes that `partitioner_prepare` has stored for the disk; 0 where there is none.
-- They are signed 64-bit numbers that are not negative.
pub record DiskSizes : Type 0 where
  pub windows : ℕ
  pub windows_min : ℕ
  pub disk : ℕ
  pub android : ℕ
  pub free : ℕ

-- `a < b` for signed 64-bit numbers in two's complement.
abbrev pub signed_ltb : ℕ → ℕ → Bool
signed_ltb a b = ltb (u64 (a + 2 ^ 63)) (u64 (b + 2 ^ 63))

-- `a - b` in 64 bits.
abbrev pub minus : ℕ → ℕ → ℕ
minus a b = u64 (a + 2 ^ 64 - b)

-- What the user answers.
pub record Answers : Type 0 where
  pub preserve_windows : Bool
  pub resize_windows : Bool
  pub new_sizes : List (Option ℕ)
  pub erase_disk : Bool

-- How the dialog ends: dual boot, with the new size of the Windows partition in bytes if it is to
-- be resized, or the whole disk for Android.
pub data Choice : Type 0 where
  dual_boot : Option ℕ → Choice
  whole_disk : Choice

abbrev pub total_free_size : DiskSizes → ℕ
total_free_size d = if d.android == 0 then d.free else d.android

abbrev resized : Option ℕ → Option Choice
resized none = none
resized (some mib) = some (dual_boot (some (u64 (mib * 2 ^ 20))))

-- The dialog where Windows is to be kept. `required_size` is an `int64_t` that gets a `uint64_t`:
-- its 64 bits. The sizes that are compared are signed.
unfoldable pub keep_windows : ℕ → DiskSizes → Answers → Option Choice
unfolding ui_get_value
keep_windows required d a =
    let must_resize = signed_ltb (total_free_size d) required in
    let can_resize = not (d.windows_min == 0) in
    let windows_max =
      if must_resize then minus d.windows (minus required (total_free_size d)) else d.windows in
    if must_resize
      && (signed_ltb windows_max 0 || signed_ltb windows_max d.windows_min || not can_resize)
    then none
    else if can_resize && a.resize_windows
    then resized (
        ui_get_value (to_mib_floor windows_max) (to_mib d.windows_min) (to_mib_floor windows_max)
          a.new_sizes)
    else if must_resize
    then none
    else some (dual_boot none)

-- The dialog where the disk is erased; 2 MiB are left for the partition tables.
unfoldable pub erase : ℕ → DiskSizes → Answers → Option Choice
erase required d a =
    if not a.erase_disk
    then none
    else if signed_ltb (minus d.disk (2 * 1024 * 1024)) required
    then none
    else some whole_disk

-- `required_dual` and `required_all` are what `get_all_space_required` gives for dual boot and for
-- the whole disk, numbers of 64 bits.
unfoldable pub partitioner_cli : ℕ → ℕ → DiskSizes → Answers → Option Choice
unfolding keep_windows erase
partitioner_cli required_dual required_all d a =
    if not (d.windows == 0) && a.preserve_windows
    then keep_windows required_dual d a
    else erase required_all d a
