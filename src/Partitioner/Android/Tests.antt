-- ===== src/Partitioner/Android/Tests.antt =====
-- The theorems on the partitions that installer/partitioner.c finds, at a concrete table.
use platform_bootable_iago.Base.{
  ℕ, ◌≤◌, ◌≡◌, ◌≢◌, refl, ap, ◌∙◌, arith, List, ◌++◌, All, IsByte, some, true, length, replicate,
  length-replicate, All-replicate,
}
use mathlib.Core.Path.{subst}
use platform_bootable_iago.Gpt.Guid.{part_esp, get_guid_type}
use platform_bootable_iago.Gpt.Entry.{Entry, zero_guid, decode_entry}
use platform_bootable_iago.Gpt.Table.{Gpt, IsTable, InTable, entry_at, gpt_entry_offset}
use platform_bootable_iago.Gpt.Table.Slots.{free_from, free_slots}
use native.Mathlib.Decide.{ℕ_discrete}
use platform_bootable_iago.Gpt.Entry.{IsEntry}
use platform_bootable_iago.Gpt.Name.{gpt_entry_get_name, lechar16_to_ascii, until_nul}
use platform_bootable_iago.Gpt.Table.{set_entry}
use platform_bootable_iago.Gpt.Table.Laws.{set_entry-IsTable, entry_at-set_self, entry_at-set_ne}
use platform_bootable_iago.Gpt.Table.Slots.{free_slots-next}
use platform_bootable_iago.Gpt.Edit.{gpt_entry_create}
use platform_bootable_iago.Gpt.FreeSpace.Largest.{IsLaidOut}
use platform_bootable_iago.Gpt.FreeSpace.Place.{gpt_entry_create-IsLaidOut}
use platform_bootable_iago.Partitioner.Android.{name_magic}
use platform_bootable_iago.Base.{◌↔◌}
use platform_bootable_iago.Partitioner.Android.{is_android}
use platform_bootable_iago.Partitioner.Android.Names.{IsAndroidName, is_android_iff}
use platform_bootable_iago.Partitioner.Android.Find.{FirstOfType, check_for_ptn-FirstOfType}
use platform_bootable_iago.Partitioner.Android.Delete.{HasName, kept, delete_android_lem}
use platform_bootable_iago.Partitioner.Android.{check_for_ptn, delete_android}
use platform_bootable_iago.Partitioner.Samples.{
  empty, misc, random, empty-IsTable, all_free, empty-IsLaidOut,
}

-- "android_misc" and its NUL
abbrev android_misc : List ℕ
android_misc = name_magic ++ (misc ++ replicate 24 0)

abbrev android_entry : Entry
android_entry = record {
  type_guid = zero_guid;
  part_guid = zero_guid;
  first_lba = 40;
  last_lba = 50;
  flags = 0;
  name = android_misc;
}

get_name_eq : gpt_entry_get_name android_entry ≡ some (name_magic ++ misc)
unfolding gpt_entry_get_name lechar16_to_ascii until_nul replicate
get_name_eq = refl

slots_left : 1 ≤ free_slots empty
unfolding free_from entry_at decode_entry gpt_entry_offset replicate
slots_left = omega arith

random_len : length random ≡ 16
random_len = length-replicate 16 5

random_bytes : All IsByte random
random_bytes = All-replicate IsByte 16 5 (omega arith)

android_entry-IsEntry : IsEntry android_entry
unfolding replicate
android_entry-IsEntry = omega arith

-- The table with one Android partition.
abbrev installed : Gpt
installed = set_entry 2 android_entry empty

installed-IsTable : IsTable installed
installed-IsTable = set_entry-IsTable empty-IsTable 2 android_entry android_entry-IsEntry

installed-HasName : (j : ℕ) → InTable j installed → HasName (entry_at j installed)
unfolding set_entry
installed-HasName j h used = elim (ℕ_discrete 2 j) [
  | yes e ↦
      subst (λ k. (name : List ℕ) × (gpt_entry_get_name (entry_at k installed) ≡ some name)) e
        (
          name_magic ++ misc,
          ap gpt_entry_get_name (
                entry_at-set_self empty-IsTable 2 android_entry (omega arith) android_entry-IsEntry)
              ∙ get_name_eq,
        )
  | no ne ↦ absurd (
      used (
        ap (λ x. x.first_lba)
          (entry_at-set_ne empty-IsTable 2 j android_entry (omega arith) h android_entry-IsEntry ne)
        ∙ all_free j h))
]

delete_android_lem_example :
    (g' : Gpt) × (delete_android installed ≡ some g')
    × IsTable g'
    × (g'.header ≡ installed.header)
    × ((j : ℕ) → InTable j installed → entry_at j g' ≡ kept (entry_at j installed))
delete_android_lem_example = delete_android_lem installed-IsTable installed-HasName

check_for_ptn-FirstOfType_example :
    FirstOfType 1 installed.header.num_pentries
      (get_guid_type part_esp)
      installed
      (check_for_ptn installed (get_guid_type part_esp))
check_for_ptn-FirstOfType_example = check_for_ptn-FirstOfType installed (get_guid_type part_esp)

gpt_entry_create-IsLaidOut_example :
    let (r, g') = gpt_entry_create empty misc part_esp 0 40 50 (some random) in
    (r ≢ 0)
    × IsTable g'
    × IsLaidOut g'
    × ((entry_at r g').first_lba ≡ 40)
    × ((entry_at r g').last_lba ≡ 50)
gpt_entry_create-IsLaidOut_example =
    gpt_entry_create-IsLaidOut empty-IsTable misc part_esp 0 40 50 random empty-IsLaidOut
      (record {
        from = omega arith;
        order = omega arith;
        upto = omega arith;
        avoids = λ i h used. absurd (used (all_free i h));
      })
      (free_slots-next empty slots_left) (omega arith) (omega arith) (omega arith) random_len
      random_bytes

is_android_iff_example :
    (is_android (name_magic ++ misc) ≡ true) ↔ IsAndroidName (name_magic ++ misc)
is_android_iff_example = is_android_iff (name_magic ++ misc)
