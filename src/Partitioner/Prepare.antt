-- ===== src/Partitioner/Prepare.antt =====
-- The preparation phase of installer/partitioner.c: `get_ntfs_min_size` and `partitioner_prepare`,
-- with `read_sysfs` and `read_sysfs_int` of installer/util.c. What the system says of a disk is a
-- record, and the match with DISK_MATCH_REGEX is a parameter. `none` is the end of the program by
-- `die`, or by a read behind the entry array.
pub mod Laws
mod Tests
use platform_bootable_iago.Base.{
  ℕ, zero, suc, ◌+◌, ◌-◌, ◌*◌, ◌^◌, Bool, true, false, not, ◌&&◌, ◌||◌, List, [], ◌∷◌, ◌++◌, Option,
  none, some, leb, ◌==◌, if◌then◌else◌, take, drop, length, bytes_eq, codes, u32, u64,
}
use platform_bootable_iago.Device.{Outcome, Device, Result, ok, err, hang}
use platform_bootable_iago.Gpt.Guid.{
  get_guid_type, guid_eq, part_ms_data, part_ms_reserved, part_esp,
}
use platform_bootable_iago.Gpt.Header.{Header}
use platform_bootable_iago.Gpt.Name.{decimal}
use platform_bootable_iago.Gpt.Table.{Gpt, entry_at, gpt_entry_get}
use platform_bootable_iago.Gpt.Edit.{gpt_entry_get_size}
use platform_bootable_iago.Gpt.FreeSpace.{gpt_find_contiguous_free_space}
use platform_bootable_iago.Gpt.Init.{Sysfs, atoll, gpt_init}
use platform_bootable_iago.Gpt.Disk.{Host, gpt_read}
use platform_bootable_iago.Options.{Hashmap, get_or_die, xatoll}
use platform_bootable_iago.Options.Append.{string_list_append}
use platform_bootable_iago.Partitioner.Sizes.{mib_align}
use platform_bootable_iago.Partitioner.Android.{check_for_ptn, check_for_android}
use platform_bootable_iago.Partitioner.Create.{◌>>=◌}
use platform_bootable_iago.Partitioner.Execute.{decimal_64, disk_key}

-- A line without the line feeds at its end.
unfoldable pub chomp : List ℕ → List ℕ
chomp [] = []
chomp (c ∷ cs) = let rest = chomp cs in if (c == 10) && (length rest == 0) then [] else c ∷ rest

-- `read_sysfs` of a file that gives its bytes to one read; one that does not open is `none`.
unfoldable pub read_sysfs : Option (List ℕ) → Option (List ℕ)
read_sysfs none = none
read_sysfs (some bytes) = some (chomp (take 4095 bytes))

unfoldable pub read_sysfs_int : Option (List ℕ) → Option ℕ
read_sysfs_int file = do vs ← read_sysfs file; xatoll vs

-- What ntfsresize says of a partition: whether the check succeeds, and what the buffer holds of the
-- output where the second call does.
pub record NtfsInfo : Type 0 where
  pub check_ok : Bool
  pub info : Option (List ℕ)

abbrev pub needle : List ℕ
needle = codes "You might resize at "

-- `strstr`: what is behind the first place where `word` stands.
unfoldable pub behind : List ℕ → List ℕ → Option (List ℕ)
behind word [] = none
behind word (c ∷ cs) =
    let rest = behind word cs in
    if bytes_eq (take (length word) (c ∷ cs)) word then some (drop (length word) (c ∷ cs)) else rest

unfoldable pub until_space : List ℕ → List ℕ
until_space [] = []
until_space (c ∷ cs) = let rest = until_space cs in if c == 32 then [] else c ∷ rest

-- `-EINVAL`, `-EROFS` and `-EIO` as 64 bits
abbrev pub minus_einval : ℕ
minus_einval = 2 ^ 64 - 22

abbrev pub minus_erofs : ℕ
minus_erofs = 2 ^ 64 - 30

abbrev pub minus_eio : ℕ
minus_eio = 2 ^ 64 - 5

unfoldable pub parse_min_size : List ℕ → Option ℕ
parse_min_size buf = do pos ← behind needle buf; xatoll (until_space pos)

unfoldable pub get_ntfs_min_size : NtfsInfo → ℕ → Gpt → Option ℕ
get_ntfs_min_size ntfs index g = do
  e ← gpt_entry_get index g
  (if not (guid_eq e.type_guid (get_guid_type part_ms_data))
      then some minus_einval
      else if not ntfs.check_ok
      then some minus_erofs
      else elim ntfs.info [ none ↦ some minus_eio | some buf ↦ parse_min_size buf ])

abbrev pub is_error : ℕ → Bool
is_error ret = ret == minus_einval || (ret == minus_eio || (ret == minus_erofs))

-- A directory of /sys/block, and the disk of that name. `model` is the file that is read for it.
pub record BlockDev : Type 0 where
  pub name : List ℕ
  pub size : Option (List ℕ)
  pub logical_block_size : Option (List ℕ)
  pub model : Option (List ℕ)
  pub sysfs : Sysfs
  pub device : Device
  pub ntfs : NtfsInfo

-- A partition that was found, where its index is in the table.
abbrev pub in_table : Gpt → Option ℕ → Option ℕ
in_table g none = none
in_table g (some i) = if not (i == 0) && leb i g.header.num_pentries then some i else none

module _ (hm : Hashmap) where
  abbrev pub put_disk : List ℕ → List ℕ → List ℕ → hm.Map → hm.Map
  put_disk disk field value opts = hm.put (disk_key disk field) value opts

  -- The sizes, the model and the node of a disk.
  unfoldable pub put_sizes : BlockDev → hm.Map → Option hm.Map
  put_sizes d opts = do
    sectors ← read_sysfs_int d.size
    lba_size ← read_sysfs_int d.logical_block_size
    model ← read_sysfs d.model
    some (
        put_disk d.name (codes "device") (codes "/dev/block/" ++ d.name) (
          put_disk d.name (codes "model") model (
            put_disk d.name (codes "size") (decimal_64 (u64 (lba_size * sectors))) (
              put_disk d.name (codes "lba_size") (decimal_64 lba_size)
                (put_disk d.name (codes "sectors") (decimal_64 sectors) opts)))))

  -- The smallest size of the Windows partition; only asked for in an interactive installation.
  unfoldable pub put_min_size : Bool → BlockDev → ℕ → Gpt → hm.Map → Option hm.Map
  put_min_size interactive d index g opts = if not interactive then some opts else (do
    ret ← get_ntfs_min_size d.ntfs index g
    some (
        if is_error ret
        then opts
        else put_disk d.name (codes "msdata_minsize") (decimal_64 ret) opts))

  -- The Windows partition, in the slot behind that of the reserved one.
  unfoldable pub put_windows : Bool → BlockDev → Gpt → hm.Map → Option hm.Map
  put_windows interactive d g opts =
      elim (in_table g (check_for_ptn g (get_guid_type part_ms_reserved))) [
        | none ↦ some opts
        | some i ↦
            if not (leb (i + 1) g.header.num_pentries)
            then none
            else put_min_size interactive d (i + 1) g (
                put_disk d.name (codes "msdata_size")
                  (decimal_64 (gpt_entry_get_size g (entry_at (i + 1) g)))
                  (put_disk d.name (codes "msdata_index") (decimal (i + 1)) opts))
      ]

  unfoldable pub put_esp : BlockDev → Gpt → hm.Map → hm.Map
  put_esp d g opts = elim (in_table g (check_for_ptn g (get_guid_type part_esp))) [
    | none ↦ opts
    | some i ↦
        put_disk d.name (codes "esp_size")
          (decimal_64 (mib_align (gpt_entry_get_size g (entry_at i g))))
          (put_disk d.name (codes "esp_index") (decimal i) opts)
  ]

  unfoldable pub put_free : BlockDev → Gpt → hm.Map → hm.Map
  put_free d g opts = elim (gpt_find_contiguous_free_space g) [
    | none ↦ opts
    | some (start, end) ↦ put_disk d.name (codes "free_end_lba") (decimal_64 end) (
        put_disk d.name (codes "free_start_lba") (decimal_64 start) (
          put_disk d.name (codes "free_size")
            (decimal_64 (u64 (u64 (u64 (end + 1) + 2 ^ 64 - start) * g.lba_size))) opts))
  ]

  -- What the table of a disk adds to the options.
  unfoldable pub put_table : Bool → BlockDev → Gpt → hm.Map → Option hm.Map
  put_table interactive d g opts = do
    opts1 ← put_windows interactive d g opts
    size ← check_for_android g
    (let opts2 = put_esp d g opts1 in
        some (
          put_free d g (
            if size == 0
            then opts2
            else put_disk d.name (codes "android_size") (decimal_64 size) opts2)))

  -- The options behind a table that was read, or that could not be.
  abbrev pub with_table : Result Gpt × List Outcome → (Gpt → Option hm.Map) → hm.Map → Option hm.Map
  with_table (ok g, s) put opts = put g
  with_table (err e, s) put opts = some opts
  with_table (hang, s) put opts = none

  module _ (host : Host) (memory : Header) (interactive : Bool) where
    -- One round of the loop over the disks.
    unfoldable pub prepare_disk : BlockDev → hm.Map × List ℕ → Option (hm.Map × List ℕ)
    prepare_disk d (opts, disks) = do
      opts1 ← put_sizes d opts
      g ← gpt_init memory (codes "/dev/block/" ++ d.name) d.sysfs
      opts2 ←
          with_table (gpt_read host d.device g d.device.sched)
            (λ g'. put_table interactive d g' opts1) opts1
      some (opts2, string_list_append disks d.name)

    module _ (skip : List ℕ → Bool) (media : List ℕ) where
      unfoldable pub prepare_disks : List BlockDev → hm.Map × List ℕ → Option (hm.Map × List ℕ)
      prepare_disks [] st = some st
      prepare_disks (d ∷ ds) st =
          let skipped = prepare_disks ds st in
          let rest = (do st' ← prepare_disk d st; prepare_disks ds st') in
          if skip d.name then skipped else if bytes_eq d.name media then skipped else rest

      -- The attempts that are left, from number `n` on; `scan n` is what is in /sys/block then.
      unfoldable pub prepare_from_attempt :
          ℕ → (ℕ → Option (List BlockDev)) → ℕ → hm.Map → Option hm.Map
      prepare_from_attempt zero scan n opts = none
      prepare_from_attempt (suc left) scan n opts = do
        ds ← scan n
        (opts', disks) ← prepare_disks ds (opts, [])
        (let again = prepare_from_attempt left scan (n + 1) opts' in
            if length disks == 0 then again else some (hm.put (codes "base:disks") disks opts'))

  abbrev pub is_interactive : hm.Map → Option Bool
  is_interactive opts = do
    v ← get_or_die hm (some (codes "0")) (codes "base:interactive_mode") opts
    some (not (u32 (atoll v) == 0))

  -- Six attempts to find a disk.
  unfoldable pub partitioner_prepare :
      Host
      → Header
      → (List ℕ → Bool)
      → List ℕ
      → (ℕ → Option (List BlockDev))
      → hm.Map
      → Option hm.Map
  partitioner_prepare host memory skip media scan opts = do
    interactive ← is_interactive opts
    prepare_from_attempt host memory interactive skip media 6 scan 0 opts
