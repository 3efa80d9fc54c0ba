-- ===== src/Partitioner/Android.antt =====
-- The partitions that installer/partitioner.c looks for on a disk: `check_for_ptn`,
-- `check_for_android`, `delete_android`.
mod Tests
pub mod Find
pub mod Delete
pub mod Names
use platform_bootable_iago.Base.{
  ℕ, zero, suc, ◌+◌, ◌^◌, Bool, true, false, not, ◌&&◌, List, [], ◌∷◌, Option, none, some, ◌==◌,
  if◌then◌else◌, take, drop, length, bytes_eq, u64,
}
use platform_bootable_iago.Gpt.Guid.{Guid, guid_eq}
use platform_bootable_iago.Gpt.Entry.{Entry}
use platform_bootable_iago.Gpt.Name.{gpt_entry_get_name}
use platform_bootable_iago.Gpt.Table.{Gpt, entry_at, partitions}
use platform_bootable_iago.Gpt.Edit.{gpt_entry_get_size, gpt_entry_delete}

-- The loop of `check_for_ptn`: `n` rounds from index `i` on; `none` is its -1.
unfoldable pub check_from : ℕ → ℕ → Guid → Gpt → Option ℕ
check_from zero i guid g = none
check_from (suc n) i guid g =
    let rest = check_from n (i + 1) guid g in
    let e = entry_at i g in
    if not (e.first_lba == 0) && guid_eq guid e.type_guid then some i else rest

unfoldable pub check_for_ptn : Gpt → Guid → Option ℕ
unfolding check_from
check_for_ptn g guid = check_from g.header.num_pentries 1 guid g

-- "android_"
abbrev pub name_magic : List ℕ
name_magic = b'a' ∷ b'n' ∷ b'd' ∷ b'r' ∷ b'o' ∷ b'i' ∷ b'd' ∷ b'_' ∷ []

abbrev pub bootloader : List ℕ
bootloader = b'b' ∷ b'o' ∷ b'o' ∷ b't' ∷ b'l' ∷ b'o' ∷ b'a' ∷ b'd' ∷ b'e' ∷ b'r' ∷ []

-- The names of the partitions that belong to Android, the ESP not counted.
unfoldable pub is_android : List ℕ → Bool
is_android name =
    bytes_eq (take 8 name) name_magic
    && not ((length name == 18) && bytes_eq (drop 8 name) bootloader)

-- The loop of `check_for_android`, from the size that it has summed up. `none` is a name without
-- a NUL.
unfoldable pub add_sizes : Gpt → List (ℕ × Entry) → ℕ → Option ℕ
add_sizes g [] size = some size
add_sizes g ((i, e) ∷ ps) size = elim (gpt_entry_get_name e) [
  | none ↦ none
  | some name ↦
      add_sizes g ps (if is_android name then u64 (size + gpt_entry_get_size g e) else size)
]

unfoldable pub check_for_android : Gpt → Option ℕ
unfolding add_sizes
check_for_android g = add_sizes g (partitions g) 0

-- One round of `delete_android`; `none` is a name without a NUL, or the end of the program.
unfoldable pub delete_if_android : ℕ → Gpt → Option Gpt
delete_if_android i g =
    if (entry_at i g).first_lba == 0 then some g else elim (gpt_entry_get_name (entry_at i g)) [
      | none ↦ none
      | some name ↦
          let (done, g') = gpt_entry_delete g i in
          if is_android name then (if done then some g' else none) else some g
    ]

unfoldable pub delete_from : ℕ → ℕ → Gpt → Option Gpt
unfolding delete_if_android
delete_from zero i g = some g
delete_from (suc n) i g = elim (delete_if_android i g) [
  | none ↦ none
  | some g' ↦ delete_from n (i + 1) g'
]

unfoldable pub delete_android : Gpt → Option Gpt
unfolding delete_from
delete_android g = delete_from g.header.num_pentries 1 g
