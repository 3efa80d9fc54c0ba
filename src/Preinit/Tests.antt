-- ===== src/Preinit/Tests.antt =====
-- Runs of the model of preinit/preinit.c, and its theorems at concrete devices.
use platform_bootable_iago.Base.{
  ℕ, zero, suc, ◌≤◌, ◌≡◌, ◌↔◌, ◌⊎◌, refl, Bool, true, false, Option, List, [], ◌∷◌, ◌++◌, none,
  some, bytes_eq, codes, replicate, of_le, slice,
}
use platform_bootable_iago.Preinit.Detect.{
  Ext2, vfat, seek_and_read, is_vfat, is_iso9660, ext_version, is_ext, detect_fs,
}
use platform_bootable_iago.Preinit.{
  Sys, Media, Disk, install_media, install_mount, is_install_media, with_info, try_mount, has_colon,
  scan_entries, scan_disk, scan_disks, found, mount_device, boot_from, boot,
}
use platform_bootable_iago.Preinit.Boot.{First, gives_0, before, boot-First}
use platform_bootable_iago.Preinit.Laws.{media_on, mount_device-Clean}

-- The fields of a superblock as Linux has them.
abbrev linux_ext : Ext2
linux_ext = record {
  size = 1024;
  magic = λ sb. of_le (slice 56 2 sb);
  feature_compat = λ sb. of_le (slice 92 4 sb);
  feature_incompat = λ sb. of_le (slice 96 4 sb);
  feature_ro_compat = λ sb. of_le (slice 100 4 sb);
  super_magic = 0xEF53;
  has_journal = 4;
  extents = 0x40;
  huge_file = 8;
}

abbrev fat_dev : List ℕ
fat_dev = replicate 11 0 ++ (0 ∷ 2 ∷ 0 ∷ 0 ∷ 0 ∷ 2 ∷ (replicate 493 0 ++ (0x55 ∷ 0xAA ∷ [])))

fat_found : detect_fs linux_ext (some fat_dev) ≡ some vfat
unfolding detect_fs is_vfat seek_and_read bytes_eq replicate
fat_found = refl

abbrev blank : Media
blank = record {
  dev_opens = true;
  dev_info = some (codes "8:1");
  mknod_ok = true;
  bytes = some (replicate 2048 0);
  mounts_as = λ fs. true;
  binds = true;
  has_cookie = true;
}

abbrev usb : Media
usb = record blank { bytes = some fat_dev }

abbrev disks : List (Disk linux_ext)
disks =
    record { name = codes "loop0"; media = usb; entries = none }
    ∷ record { name = codes "sda"; media = blank; entries = some ((codes "sda1", blank) ∷ []) }
    ∷ record { name = codes "sdb"; media = blank; entries = some ((codes "sdb1", usb) ∷ []) }
    ∷ []

abbrev start : Sys
start = record { mounts = []; tmp_node = false; open_fds = 0 }

-- The loop device is left out; the media are on a partition of "sdb".
sdb_found :
    scan_disks linux_ext (λ name. bytes_eq name (codes "loop0")) disks start
    ≡ (found (codes "sdb"), record start { mounts = install_media ∷ install_mount ∷ [] })
unfolding scan_disks scan_disk scan_entries is_install_media with_info has_colon try_mount detect_fs
    is_vfat is_iso9660 is_ext ext_version seek_and_read bytes_eq replicate
sdb_found = refl

mount_device-Clean_example :
    let r =
      mount_device linux_ext (λ name. bytes_eq name (codes "loop0")) (some disks) true start in
    (r.1.tmp_node ≡ false)
    × ((r.1.mounts ≡ media_on false []) ⊎ (r.1.mounts ≡ media_on true []))
    × (r.0 ≡ true → r.1.mounts ≡ media_on true [])
mount_device-Clean_example =
    mount_device-Clean linux_ext (λ name. bytes_eq name (codes "loop0")) (some disks) true start
      refl

-- The media at the third attempt, after one at which default.prop does not open.
abbrev arrives : ℕ → Option (List (Disk linux_ext))
arrives zero = some []
arrives (suc n) = some disks

abbrev opens : ℕ → Bool
opens (suc zero) = false
opens n = true

abbrev no_loop : List ℕ → Bool
no_loop name = bytes_eq name (codes "loop0")

-- The media are mounted twice.
booted : boot linux_ext no_loop arrives opens start ≡ (
  some 2,
  record start { mounts = install_media ∷ install_mount ∷ install_media ∷ install_mount ∷ [] },
)
unfolding boot boot_from mount_device scan_disks scan_disk scan_entries is_install_media with_info
    has_colon try_mount detect_fs is_vfat is_iso9660 is_ext ext_version seek_and_read bytes_eq
    replicate
booted = refl

boot-First_example :
    ((((boot linux_ext no_loop arrives opens start).0 ≡ some 2)
        ↔ (First (gives_0 linux_ext no_loop arrives opens start) 0 2 × (2 ≤ 15)))
      × ((boot linux_ext no_loop arrives opens start).0 ≡ some 2
          → ((boot linux_ext no_loop arrives opens start).1.tmp_node ≡ false)
            × ((boot linux_ext no_loop arrives opens start).1.mounts
                ≡ media_on true (before linux_ext no_loop arrives opens start 2).mounts)))
boot-First_example = boot-First linux_ext no_loop arrives opens start 2 refl
