-- ===== src/Partitioner/Dialog/Laws.antt =====
-- The space that a choice of installer/partitioner.c `partitioner_cli` leaves for Android.
use platform_bootable_iago.Base.{
  ℕ, ◌+◌, ◌-◌, ◌*◌, ◌%◌, ◌^◌, ◌≤◌, ◌<◌, ◌≡◌, inl, inr, refl, ◌∙◌, sym, arith, Bool, true, false,
  not, ltb→lt, ltb→le, ◌&&◌, ◌||◌, Bool-cases, List, [], ◌∷◌, Option, none, some, ltb, leb, ◌==◌,
  if◌then◌else◌, u64,
}
use mathlib.Core.Path.{subst}
use mathlib.Core.Option.{some-injective, none-ne-some}
use platform_bootable_iago.Partitioner.Sizes.{to_mib, to_mib_floor}
use platform_bootable_iago.Partitioner.Dialog.{
  ui_get_value, DiskSizes, Answers, Choice, dual_boot, whole_disk, total_free_size, resized,
  keep_windows, erase, partitioner_cli, signed_ltb, minus,
}

-- The answer is the default or lies between the limits; with the upper limit as the default it is
-- not above it.
ui_get_value_bound :
    (high low : ℕ) (answers : List (Option ℕ)) (v : ℕ)
    → ui_get_value high low high answers ≡ some v
    → v ≤ high
unfolding ui_get_value
ui_get_value_bound high low [] v e = absurd (none-ne-some v e)
ui_get_value_bound high low (none ∷ answers) v e = let same = some-injective high v e in omega arith
ui_get_value_bound high low (some n ∷ answers) v e =
    elim (Bool-cases (leb (2 ^ 64) n || ltb (n % 2 ^ 32) low || ltb high (n % 2 ^ 32))) [
      | inl out ↦ ui_get_value_bound high low answers v (rw (out, ui_get_value) at e)
      | inr fine ↦
          let same = some-injective (n % 2 ^ 32) v (rw (fine, ui_get_value) at e) in ground arith
    ]

-- What a choice is to leave: the free space, with what Windows gives up, holds `required_dual`
-- bytes; or the disk holds `required_all` and 2 MiB.
abbrev pub HasSpace : ℕ → ℕ → DiskSizes → Choice → Type 0
HasSpace required_dual required_all d (dual_boot none) = required_dual ≤ total_free_size d
HasSpace required_dual required_all d (dual_boot (some size)) =
    (size ≤ d.windows) × (required_dual + size ≤ total_free_size d + d.windows)
HasSpace required_dual required_all d whole_disk = required_all + 2 * 2 ^ 20 ≤ d.disk

-- A size that is not negative as an `int64_t`.
abbrev pub IsSize : ℕ → Type 0
IsSize n = n < 2 ^ 63

-- The sizes of a disk.
pub record HasSizes (d : DiskSizes) : Type 0 where
  pub windows : IsSize d.windows
  pub windows_min : IsSize d.windows_min
  pub disk : IsSize d.disk
  pub android : IsSize d.android
  pub free : IsSize d.free

signed_ltb-eq : (a b : ℕ) → IsSize a → IsSize b → signed_ltb a b ≡ ltb a b
signed_ltb-eq a b ha hb =
    let ea : u64 (a + 2 ^ 63) ≡ a + 2 ^ 63 = omega arith in
    let eb : u64 (b + 2 ^ 63) ≡ b + 2 ^ 63 = omega arith in rw (ea, eb) (ground arith)

if-IsSize : (b : Bool) (m n : ℕ) → IsSize m → IsSize n → IsSize (if b then m else n)
if-IsSize true m n hm hn = hm
if-IsSize false m n hm hn = hn

module _ (required_dual required_all : ℕ) (d : DiskSizes) (a : Answers) (c : Choice)
    (sizes : HasSizes d) (dual : IsSize required_dual) (all : IsSize required_all) where
  resized_space :
      (limit : ℕ) (r : Option ℕ)
      → ((v : ℕ) → r ≡ some v → v ≤ to_mib_floor limit)
      → limit ≤ d.windows
      → limit < 2 ^ 63
      → required_dual + limit ≤ total_free_size d + d.windows
      → resized r ≡ some c
      → HasSpace required_dual required_all d c
  unfolding to_mib_floor
  resized_space limit none bound low small fits e = absurd (none-ne-some c e)
  resized_space limit (some v) bound low small fits e =
      subst (HasSpace required_dual required_all d) (some-injective _ c e)
        (let top = bound v refl in (omega arith, omega arith))

  total-IsSize : IsSize (total_free_size d)
  total-IsSize = if-IsSize (d.android == 0) d.free d.android sizes.free sizes.android

  -- A disk with less than 2 MiB leaves a negative number.
  rest_of_disk :
      signed_ltb (minus d.disk (2 * 1024 * 1024)) required_all ≡ false
      → required_all + 2 * 2 ^ 20 ≤ d.disk
  rest_of_disk e = let large = ltb→le _ _ e in let small = sizes.disk in omega (arith, all)

  erase_space : erase required_all d a ≡ some c → HasSpace required_dual required_all d c
  unfolding erase
  erase_space e = elim (Bool-cases (not a.erase_disk)) [
    | inl refused ↦ absurd (none-ne-some c (rw refused at e))
    | inr agreed ↦ elim (Bool-cases (signed_ltb (minus d.disk (2 * 1024 * 1024)) required_all)) [
      | inl small ↦ absurd (none-ne-some c (rw (agreed, small) at e))
      | inr large ↦
          subst (HasSpace required_dual required_all d)
            (some-injective whole_disk c (rw (agreed, large) at e)) (rest_of_disk large)
    ]
  ]

  -- Whether Windows can be resized, and is to be.
  abbrev wants_resize : Bool
  wants_resize = not (d.windows_min == 0) && a.resize_windows

  -- The most that Windows may keep, where space is missing.
  abbrev windows_max : ℕ
  windows_max = minus d.windows (minus required_dual (total_free_size d))

  abbrev asked : ℕ → Option ℕ
  asked limit =
      ui_get_value (to_mib_floor limit) (to_mib d.windows_min) (to_mib_floor limit) a.new_sizes

  abbrev impossible : Bool
  impossible =
      signed_ltb windows_max 0
      || signed_ltb windows_max d.windows_min
      || not (not (d.windows_min == 0))

  -- Where Windows can give up what is missing, no difference wraps.
  windows_max-eq :
      total_free_size d < required_dual
      → signed_ltb windows_max 0 ≡ false
      → (IsSize windows_max) × (required_dual + windows_max ≡ total_free_size d + d.windows)
  windows_max-eq less e =
      let positive = ltb→le _ _ e in
      let small = sizes.windows in
      let missing : minus required_dual (total_free_size d) ≡ required_dual - total_free_size d =
        omega (arith, total-IsSize) in
      (omega arith, omega (arith, total-IsSize))

  not_negative : impossible ≡ false → signed_ltb windows_max 0 ≡ false
  not_negative e = ground (arith, e)

  tight_space :
      signed_ltb (total_free_size d) required_dual ≡ true
      → (if impossible then none else if wants_resize then resized (asked windows_max) else none)
        ≡ some c
      → HasSpace required_dual required_all d c
  tight_space must e = elim (Bool-cases impossible) [
    | inl no_way ↦ absurd (none-ne-some c (rw no_way at e))
    | inr possible ↦ elim (Bool-cases wants_resize) [
      | inl now ↦
          let less =
            ltb→lt _ _
              (sym (signed_ltb-eq (total_free_size d) required_dual total-IsSize dual) ∙ must) in
          let (small, exact) = windows_max-eq less (not_negative possible) in
          resized_space windows_max (asked windows_max)
            (ui_get_value_bound (to_mib_floor windows_max) (to_mib d.windows_min) a.new_sizes)
            (omega arith) small (omega arith) (rw (possible, now) at e)
      | inr later ↦ absurd (none-ne-some c (rw (possible, later) at e))
    ]
  ]

  free_space :
      signed_ltb (total_free_size d) required_dual ≡ false
      → (if wants_resize then resized (asked d.windows) else some (dual_boot none)) ≡ some c
      → HasSpace required_dual required_all d c
  free_space enough e =
      let small = sizes.windows in
      let fits : required_dual ≤ total_free_size d =
        ltb→le _ _
          (sym (signed_ltb-eq (total_free_size d) required_dual total-IsSize dual) ∙ enough) in
      elim (Bool-cases wants_resize) [
        | inl now ↦
            resized_space d.windows (asked d.windows)
              (ui_get_value_bound (to_mib_floor d.windows) (to_mib d.windows_min) a.new_sizes)
              (omega arith) small (omega arith) (rw now at e)
        | inr later ↦
            subst (HasSpace required_dual required_all d)
              (some-injective (dual_boot none) c (rw later at e)) fits
      ]

  keep_space : keep_windows required_dual d a ≡ some c → HasSpace required_dual required_all d c
  unfolding keep_windows
  keep_space e = elim (Bool-cases (signed_ltb (total_free_size d) required_dual)) [
    | inl must ↦ tight_space must (rw must at e)
    | inr enough ↦ free_space enough (rw enough at e)
  ]

  -- Where the sizes of the disk and the space required are fewer than 2^63 bytes, so that none is
  -- negative as an `int64_t`, and the dialog ends with a choice: for dual boot, the free space (that
  -- of Android, where it is installed) with what Windows gives up holds the space that dual boot
  -- requires, and Windows does not grow; for the whole disk, the disk holds the space required and
  -- 2 MiB.
  pub partitioner_cli-HasSpace :
      partitioner_cli required_dual required_all d a ≡ some c
      → HasSpace required_dual required_all d c
  unfolding partitioner_cli
  partitioner_cli-HasSpace e = elim (Bool-cases (not (d.windows == 0) && a.preserve_windows)) [
    | inl keep ↦ keep_space (rw keep at e)
    | inr wipe ↦ erase_space (rw wipe at e)
  ]
