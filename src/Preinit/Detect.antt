-- ===== src/Preinit/Detect.antt =====
-- The file system on a device: preinit/preinit.c `is_vfat`, `is_iso9660`, `is_extN` and `detect_fs`.
-- A read inside the device is complete. The superblock of ext2fs is a parameter.
use platform_bootable_iago.Base.{
  ℕ, ◌+◌, ◌*◌, Bool, false, not, ◌&&◌, List, [], ◌∷◌, Option, none, some, ltb, leb, ◌==◌,
  if◌then◌else◌, length, slice, bytes_eq, bit_and, codes,
}

pub data Fs : Type 0 where
  vfat iso9660 ext2 ext3 ext4 : Fs

-- `struct ext2_super_block` and the constants of ext2fs.
pub record Ext2 : Type 0 where
  pub size : ℕ
  pub magic : List ℕ → ℕ
  pub feature_compat : List ℕ → ℕ
  pub feature_incompat : List ℕ → ℕ
  pub feature_ro_compat : List ℕ → ℕ
  pub super_magic : ℕ
  pub has_journal : ℕ
  pub extents : ℕ
  pub huge_file : ℕ

unfoldable pub seek_and_read : List ℕ → ℕ → ℕ → Option (List ℕ)
seek_and_read dev offset count =
    if leb (offset + count) (length dev) then some (slice offset count dev) else none

-- Whether a read succeeds and gives these bytes.
abbrev pub reads_as : List ℕ → Option (List ℕ) → Bool
reads_as wanted none = false
reads_as wanted (some buf) = bytes_eq buf wanted

-- The signature, the number of FATs and the bytes per sector.
unfoldable pub is_vfat : List ℕ → Bool
is_vfat dev =
    reads_as (0x55 ∷ 0xAA ∷ []) (seek_and_read dev 0x1FE 2)
    && (reads_as (2 ∷ []) (seek_and_read dev 0x10 1)
        && reads_as (0x00 ∷ 0x02 ∷ []) (seek_and_read dev 0x0B 2))

unfoldable pub is_iso9660 : List ℕ → Bool
is_iso9660 dev = reads_as (codes "CD001") (seek_and_read dev (16 * 2048 + 1) 5)

-- The version that a superblock says.
unfoldable pub ext_version : Ext2 → List ℕ → Option Fs
ext_version ext sb =
    if not (ext.magic sb == ext.super_magic)
    then none
    else if bit_and (ext.feature_compat sb) ext.has_journal == 0
    then some ext2
    else if ltb (ext.feature_incompat sb) ext.extents
        && ltb (ext.feature_ro_compat sb) ext.huge_file
    then some ext3
    else some ext4

unfoldable pub is_ext : Ext2 → List ℕ → Option Fs
is_ext ext dev = elim (seek_and_read dev 1024 ext.size) [
  | none ↦ none
  | some sb ↦ ext_version ext sb
]

-- `none` is a node that does not open, and a device without a known file system.
unfoldable pub detect_fs : Ext2 → Option (List ℕ) → Option Fs
detect_fs ext none = none
detect_fs ext (some dev) =
    if is_vfat dev then some vfat else if is_iso9660 dev then some iso9660 else is_ext ext dev
