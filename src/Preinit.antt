-- ===== src/Preinit.antt =====
-- Early boot, preinit/preinit.c: the search for the installation media before the real init. What
-- the kernel says of each device is a record; the mounts are the state.
pub mod Boot
pub mod Detect
pub mod Laws
mod Tests
use platform_bootable_iago.Base.{
  ℕ, zero, suc, ◌+◌, ◌-◌, Bool, true, false, not, ◌&&◌, ◌||◌, List, [], ◌∷◌, ◌++◌, Option, none,
  some, ◌==◌, if◌then◌else◌, length, take, bytes_eq,
}
use platform_bootable_iago.Preinit.Detect.{Ext2, Fs, detect_fs}

-- Where something is mounted: INSTALL_MOUNT and INSTALL_MEDIA.
pub data Place : Type 0 where
  install_mount install_media : Place

-- What the process holds: mounts, the latest first, and the temporary device node.
pub record Sys : Type 0 where
  pub mounts : List Place
  pub tmp_node : Bool
  pub open_fds : ℕ

-- What the kernel says of a device in /sys/block.
pub record Media : Type 0 where
  -- the file "dev": whether it opens, and what a read gives
  pub dev_opens : Bool
  pub dev_info : Option (List ℕ)
  pub mknod_ok : Bool
  -- the bytes behind the node, where it opens
  pub bytes : Option (List ℕ)
  pub mounts_as : Fs → Bool
  pub binds : Bool
  pub has_cookie : Bool

-- `strchr(devinfo, ':')` on what a read gave; nothing is read at the end of the file.
unfoldable pub has_colon : List ℕ → Bool
has_colon [] = false
has_colon (c ∷ cs) =
    let rest = has_colon cs in if c == 0 then false else if c == b':' then true else rest

-- `umount` of the latest mount.
abbrev pub umount : Sys → Sys
umount s = record s { mounts = rest_of s.mounts }
  where
    rest_of : List Place → List Place
    rest_of [] = []
    rest_of (p ∷ ps) = ps

abbrev pub mount : Place → Sys → Sys
mount p s = record s { mounts = p ∷ s.mounts }

abbrev pub unlink_node : Sys → Sys
unlink_node s = record s { tmp_node = false }

module _ (ext : Ext2) where
  -- From the detection of the file system on.
  unfoldable pub try_mount : Media → Option Fs → Sys → Bool × Sys
  try_mount m none s = (false, unlink_node s)
  try_mount m (some fs) s =
      let mounted = mount install_mount s in
      let bound = mount install_media mounted in
      if not (m.mounts_as fs)
      then (false, unlink_node s)
      else if not m.binds
      then (false, unlink_node (umount mounted))
      else if not m.has_cookie
      then (false, unlink_node (umount (umount bound)))
      else (true, unlink_node bound)

  -- With what was read from "dev"; its descriptor is closed behind the read only where that gave
  -- something.
  unfoldable pub with_info : Media → Option (List ℕ) → Sys → Bool × Sys
  with_info m none s = (false, record s { open_fds = s.open_fds + 1 })
  with_info m (some info) s =
      if length info == 0
      then (false, record s { open_fds = s.open_fds + 1 })
      else if not (has_colon info)
      then (false, s)
      else if not m.mknod_ok
      then (false, s)
      else try_mount m (detect_fs ext m.bytes) (record s { tmp_node = true })

  unfoldable pub is_install_media : Media → Sys → Bool × Sys
  is_install_media m s = if not m.dev_opens then (false, s) else with_info m m.dev_info s

  -- A directory in /sys/block: its name, the device, and its entries, where it opens.
  pub record Disk : Type 0 where
    pub name : List ℕ
    pub media : Media
    pub entries : Option (List (List ℕ × Media))

  -- The loop over the entries of a disk; `skip` is the match with DISK_MATCH_REGEX.
  unfoldable pub scan_entries : (List ℕ → Bool) → List ℕ → List (List ℕ × Media) → Sys → Bool × Sys
  scan_entries skip disk [] s = (false, s)
  scan_entries skip disk ((name, m) ∷ es) s =
      let (found, s') = is_install_media m s in
      let skipped = scan_entries skip disk es s in
      let next = scan_entries skip disk es s' in
      if skip name || not (bytes_eq (take (length disk) name) disk)
      then skipped
      else if found
      then (true, s')
      else next

  -- How the search ends: on the disk of that name, at the end of the list or at a directory that
  -- does not open.
  pub data Search : Type 0 where
    found : List ℕ → Search
    not_found : Search

  -- The partitions of a disk that has no media itself; without a result its directory does not
  -- open.
  unfoldable pub scan_disk : (List ℕ → Bool) → Disk → Sys → Option (Bool × Sys)
  scan_disk skip d s = elim d.entries [
    | none ↦ none
    | some es ↦ some (scan_entries skip d.name es s)
  ]

  -- What follows the partitions of a disk.
  abbrev pub after_disk : List ℕ → Sys → Option (Bool × Sys) → (Sys → Search × Sys) → Search × Sys
  after_disk name s none next = (not_found, s)
  after_disk name s (some (true, s')) next = (found name, s')
  after_disk name s (some (false, s')) next = next s'

  unfoldable pub scan_disks : (List ℕ → Bool) → List Disk → Sys → Search × Sys
  scan_disks skip [] s = (not_found, s)
  scan_disks skip (d ∷ ds) s =
      let (hit, s') = is_install_media d.media s in
      let skipped = scan_disks skip ds s in
      let rest = after_disk d.name s' (scan_disk skip d s') (scan_disks skip ds) in
      if skip d.name then skipped else if hit then (found d.name, s') else rest

  -- `mount_device`: 0 is `true`. `disks` is what is in /sys/block, where that opens and the pattern
  -- compiles; `prop_written` is that default.prop opens and takes the line.
  unfoldable pub mount_device : (List ℕ → Bool) → Option (List Disk) → Bool → Sys → Bool × Sys
  mount_device skip none prop_written s = (false, s)
  mount_device skip (some disks) prop_written s =
      let (search, s') = scan_disks skip disks s in
      elim search [ found name ↦ (prop_written, s') | not_found ↦ (false, s') ]

  -- The loop of `main` with `count`, from attempt `n` on: the attempt at which `mount_device` gave 0,
  -- and the state it left; `none` is `exit(1)`. `disks n` and `written n` are what `mount_device` meets
  -- at attempt `n`.
  unfoldable pub boot_from :
      ℕ → (List ℕ → Bool) → (ℕ → Option (List Disk)) → (ℕ → Bool) → ℕ → Sys → Option ℕ × Sys
  boot_from zero skip disks written n s =
      let (done, s') = mount_device skip (disks n) (written n) s in
      if done then (some n, s') else (none, s')
  boot_from (suc count) skip disks written n s =
      let (done, s') = mount_device skip (disks n) (written n) s in
      let rest = boot_from count skip disks written (suc n) s' in
      if done then (some n, s') else rest

  unfoldable pub boot :
      (List ℕ → Bool) → (ℕ → Option (List Disk)) → (ℕ → Bool) → Sys → Option ℕ × Sys
  boot skip disks written s = boot_from 15 skip disks written 0 s
