-- ===== src/Partitioner/Execute.antt =====
-- The execution phase of installer/partitioner.c: `resize_ntfs_partition`, `execute_wipe_disk`,
-- `execute_dual_boot`, `getguid_cb`, `get_bus_name`, `partitioner_execute`, and
-- `get_all_space_required`. `none` is the end of the program by `die`, or by a NULL pointer.
pub mod Laws
mod Tests
use platform_bootable_iago.Base.{
  ℕ, ◌+◌, ◌-◌, ◌*◌, ◌^◌, Bool, true, false, not, ◌&&◌, ◌||◌, List, [], ◌∷◌, ◌++◌, Option, none,
  some, ◌==◌, if◌then◌else◌, take, drop, length, bytes_eq, codes, u32, u64,
}
use platform_bootable_iago.Device.{
  Outcome, Device, Status, success, failure, overrun, Result, ok, err, hang,
}
use platform_bootable_iago.Gpt.Guid.Text.{gpt_guid_to_string}
use platform_bootable_iago.Gpt.Entry.{Entry}
use platform_bootable_iago.Gpt.Header.{Header}
use platform_bootable_iago.Gpt.Name.{decimal, decimal_from, gpt_get_device_node, gpt_entry_set_name}
use platform_bootable_iago.Gpt.Table.{Gpt, set_entry, gpt_entry_get}
use platform_bootable_iago.Gpt.Edit.{gpt_new}
use platform_bootable_iago.Gpt.Init.{Sysfs, gpt_init}
use platform_bootable_iago.Gpt.Disk.{Host, gpt_read, gpt_write}
use platform_bootable_iago.Options.{Hashmap, get_or_die, string_list_iterate, xatoll}
use platform_bootable_iago.Partitioner.Sizes.{to_mib, to_unit_ceiling}
use platform_bootable_iago.Partitioner.Android.{name_magic, bootloader, delete_android}
use platform_bootable_iago.Partitioner.Create.{
  ◌>>=◌, partition_key, len_field, index_field, device_field, base_ptn_list, min_data_part_size,
  Session, next_random, more_random, get_partial_space_required, create_android_partitions,
}

-- `%llu`: a 64-bit number has twenty digits at most.
abbrev pub decimal_64 : ℕ → List ℕ
decimal_64 n = decimal_from 20 n []

-- "disk.%s:" with a field
abbrev pub disk_key : List ℕ → List ℕ → List ℕ
disk_key disk field = codes "disk." ++ (disk ++ (b':' ∷ field))

abbrev pub require : Bool → Option Bool
require b = if b then some b else none

-- Whether ntfsresize succeeds, dry and in earnest.
pub record Ntfs : Type 0 where
  pub dry_run : Bool
  pub run : Bool

-- The last block behind the new size of a partition.
unfoldable pub resize_ntfs_partition : Ntfs → ℕ → Gpt → ℕ → Option Gpt
resize_ntfs_partition ntfs index g new_size = do
  e ← gpt_entry_get index g
  dry ← require ntfs.dry_run
  done ← require ntfs.run
  some (
      set_entry index
        (record e {
          last_lba = u64 (e.first_lba + to_unit_ceiling new_size g.lba_size + 2 ^ 64 - 1);
        })
        g)

-- What `strchr` finds: what is before the first "/" and what is behind it.
unfoldable pub split_slash : List ℕ → Option (List ℕ × List ℕ)
split_slash [] = none
split_slash (c ∷ cs) =
    let rest = split_slash cs in
    if c == b'/'
    then some ([], cs)
    else elim rest [ none ↦ none | some (before, behind) ↦ some (c ∷ before, behind) ]

-- Two directories of a PCI device.
abbrev pub pci_name : Option (List ℕ × List ℕ) → Option (List ℕ)
pci_name none = none
pci_name (some (bus, rest)) = elim (split_slash rest) [
  | none ↦ none
  | some (slot, behind) ↦ some (bus ++ (b'/' ∷ slot))
]

abbrev pub first_name : Option (List ℕ × List ℕ) → Option (List ℕ)
first_name none = none
first_name (some (name, behind)) = some name

-- From what `readlink` gives for the disk, which is taken to end with a NUL; `none` is NULL.
unfoldable pub get_bus_name : List ℕ → Option (List ℕ)
unfolding split_slash
get_bus_name link =
    let pos = drop 11 link in
    if bytes_eq (take 3 pos) (codes "pci")
    then pci_name (split_slash pos)
    else if bytes_eq (take 9 pos) (codes "platform/")
    then first_name (split_slash (drop 9 pos))
    else none

-- What the kernel and the tools say: the sizes of the disk, the memory that `gpt_init` gets,
-- ntfsresize, and the link in /sys/block.
pub record System : Type 0 where
  pub sysfs : Sysfs
  pub memory : Header
  pub ntfs : Ntfs
  pub link : Option (List ℕ)

module _ (hm : Hashmap) where
  -- The number of an option; 0 where there is none.
  abbrev pub number_or_0 : List ℕ → hm.Map → Option ℕ
  number_or_0 key opts = do str ← get_or_die hm (some (codes "0")) key opts; xatoll str

  -- The size of the bootloader partition and of its copy, in bytes.
  unfoldable pub bootloader_sizes : hm.Map → Option ℕ
  bootloader_sizes opts = do
    len ← get_or_die hm none (partition_key bootloader len_field) opts
    mib ← xatoll len
    some (u64 (u64 (mib * 2 ^ 20) * 2))

  unfoldable pub get_all_space_required : hm.Map → List ℕ → Bool → Option ℕ
  get_all_space_required opts disk dualboot = do
    bootloader_size ←
        (if dualboot
          then number_or_0 (disk_key disk (codes "esp_size")) opts
          else bootloader_sizes opts)
    partial ← get_partial_space_required hm opts bootloader_size
    some (u64 (partial + min_data_part_size * 2 ^ 20))

  -- A new table in place of what is on the disk.
  unfoldable pub execute_wipe_disk :
      System → List ℕ → List ℕ → hm.Map → List (Option (List ℕ)) → Option (Session hm)
  execute_wipe_disk sys partlist device opts entropy = do
    g ← gpt_init sys.memory device sys.sysfs
    (made, fresh) ← gpt_new (next_random hm entropy) g
    done ← require made
    size ← bootloader_sizes opts
    create_android_partitions hm size partlist fresh false opts (more_random hm entropy)

  -- The options of the ESP, as `partition.bootloader`.
  abbrev pub claim_esp : ℕ → ℕ → Gpt → hm.Map → hm.Map
  claim_esp esp_size esp_index g opts =
      hm.put (partition_key bootloader device_field) (gpt_get_device_node esp_index g) (
        hm.put (partition_key bootloader index_field) (decimal esp_index) (
          hm.put (partition_key bootloader len_field) (decimal_64 (to_mib esp_size))
            (hm.put (partition_key bootloader (codes ":mode")) (codes "skip") opts)))

  -- What was read of a table; an endless read is no result.
  abbrev pub table_read : Result Gpt × List Outcome → Option (Gpt × List Outcome)
  table_read (ok g, s) = some (g, s)
  table_read (err e, s) = none
  table_read (hang, s) = none

  -- The table with the ESP renamed.
  abbrev pub rename_esp : ℕ → Session hm → Option (Session hm)
  rename_esp esp_index s = do
    esp ← gpt_entry_get esp_index s.mc.gpt
    named ← gpt_entry_set_name esp (name_magic ++ bootloader)
    some (record s { mc = record s.mc { gpt = set_entry esp_index named s.mc.gpt } })

  -- The session, the installed properties, and the disk with what is left of its schedule.
  unfoldable pub execute_dual_boot :
      Host
      → System
      → List ℕ
      → List ℕ
      → List ℕ
      → hm.Map
      → hm.Map
      → List (Option (List ℕ))
      → Device
      → Option (Session hm × hm.Map × Device)
  execute_dual_boot host sys disk partlist device opts iprops entropy dev = do
    g ← gpt_init sys.memory device sys.sysfs
    win_resize ← number_or_0 (disk_key disk (codes "windows_resize")) opts
    esp_size ← number_or_0 (disk_key disk (codes "esp_size")) opts
    esp ← number_or_0 (disk_key disk (codes "esp_index")) opts
    win ← number_or_0 (disk_key disk (codes "msdata_index")) opts
    let esp_index = u32 esp
    let win_index = u32 win
    present ← require (not (esp_index == 0))
    (old, sched) ← table_read (gpt_read host dev g dev.sched)
    resized ←
        (if win_resize == 0
          then some old
          else resize_ntfs_partition sys.ntfs win_index old win_resize)
    android_size ← number_or_0 (disk_key disk (codes "android_size")) opts
    free ← (if android_size == 0 then some resized else delete_android resized)
    s ←
        create_android_partitions hm esp_size partlist free true
          (claim_esp esp_size esp_index free opts) entropy
    renamed ← rename_esp esp_index s
    some (
      renamed,
      if win_index == 0 then iprops else hm.put (codes "ro.rtc_local_time") (codes "1") iprops,
      record dev { sched = sched },
    )

  -- The GUID of an entry's partition among the options.
  unfoldable pub getguid_cb : Gpt → List ℕ → hm.Map → Option hm.Map
  getguid_cb g entry opts = do
    str ← get_or_die hm none (partition_key entry index_field) opts
    index ← xatoll str
    e ← gpt_entry_get (u32 index) g
    some (hm.put (partition_key entry (codes ":guid")) (gpt_guid_to_string e.part_guid) opts)

  -- The options with the bus, where it has a name; without a link the program ends.
  abbrev pub with_bus : Option (List ℕ) → hm.Map → Option hm.Map
  with_bus none opts = none
  with_bus (some link) opts = elim (get_bus_name link) [
    | none ↦ some opts
    | some bus ↦ some (hm.put (codes "base:disk_bus") bus opts)
  ]

  -- The device where the write succeeds.
  abbrev pub written : Status × Device → Option Device
  written (success, dev) = some dev
  written (failure, dev) = none
  written (overrun, dev) = none

  -- The table that is made, and the options and installed properties with it.
  unfoldable pub make_table :
      Host
      → System
      → hm.Map
      → hm.Map
      → List (Option (List ℕ))
      → Device
      → Option (Session hm × hm.Map × Device)
  make_table host sys opts iprops entropy dev = do
    partlist ← get_or_die hm none base_ptn_list opts
    disk ← get_or_die hm none (codes "base:install_disk") opts
    dualboot ← number_or_0 (codes "base:dualboot") opts
    let device = codes "/dev/block/" ++ disk
    (if dualboot == 0
        then (do s ← execute_wipe_disk sys partlist device opts entropy; some (s, iprops, dev))
        else execute_dual_boot host sys disk partlist device opts iprops entropy dev)

  -- The options, the installed properties and the disk.
  unfoldable pub partitioner_execute :
      Host
      → System
      → hm.Map
      → hm.Map
      → List (Option (List ℕ))
      → Device
      → Option (hm.Map × hm.Map × Device)
  partitioner_execute host sys opts iprops entropy dev = do
    (s, iprops', dev1) ← make_table host sys opts iprops entropy dev
    partlist ← get_or_die hm none base_ptn_list opts
    opts' ← string_list_iterate partlist (getguid_cb s.mc.gpt) s.opts
    dev' ← written (gpt_write host s.mc.gpt dev1)
    opts'' ← with_bus sys.link opts'
    some (opts'', iprops', dev')
