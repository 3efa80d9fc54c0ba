-- ===== src/Mbr/Validate.antt =====
-- The test of a disk configuration: editdisklbl/diskconfig.c `validate`. What the kernel says of
-- the node is a record; the result is the configuration with the size of the disk, and whether
-- there is a descriptor. `dinfo` is not NULL.
pub mod Total
pub mod Laws
use platform_bootable_iago.Base.{
  ℕ, ◌+◌, ◌-◌, ◌*◌, ◌/◌, ◌^◌, Bool, true, false, not, ◌&&◌, ◌||◌, List, [], ◌∷◌, Option, none, some,
  ltb, ◌==◌, if◌then◌else◌, u32, u64,
}
use platform_bootable_iago.Mbr.{PartInfo, DiskInfo, fill, is_some, head_part}

pub data FileKind : Type 0 where
  block regular other : FileKind

-- A node of the file system: the answers to `open`, `fstat` and the ioctl calls.
pub record Node : Type 0 where
  pub opens : Bool
  pub stats : Bool
  pub kind : FileKind
  pub st_size : ℕ
  -- BLKSSZGET
  pub sect_sz : Option ℕ
  -- BLKGETSIZE64
  pub size : Option ℕ
  -- BLKRRPART
  pub rereads : Bool

-- An `int` given by its 32 bits, as `uint64_t`.
abbrev pub extend_sign : ℕ → ℕ
extend_sign n = if ltb n (2 ^ 31) then n else n + 2 ^ 64 - 2 ^ 32

-- The low 32 bits of the quotient of a file's size and an `int`.
abbrev pub signed_blocks : ℕ → ℕ → ℕ
signed_blocks size n = if ltb n (2 ^ 31) then u32 (size / n) else u32 (2 ^ 64 - size / (2 ^ 32 - n))

-- The size of the disk in bytes and in blocks, for a block device whose block size is `sz`.
unfoldable pub block_size : Node → DiskInfo → ℕ → Option (ℕ × ℕ)
block_size node dinfo sz =
    if sz == 0 || not (sz == dinfo.sect_size)
    then none
    else if dinfo.num_lba == 0
    then elim node.size [
      | none ↦ none
      | some size ↦ some (size, u32 (size / extend_sign dinfo.sect_size))
    ]
    else some (u64 (dinfo.num_lba * extend_sign dinfo.sect_size), dinfo.num_lba)

unfoldable pub file_size : Node → DiskInfo → Option (ℕ × ℕ)
file_size node dinfo =
    if dinfo.sect_size == 0
    then none
    else if dinfo.num_lba == 0
    then some (node.st_size, signed_blocks node.st_size dinfo.sect_size)
    else some (u64 (dinfo.num_lba * extend_sign dinfo.sect_size), dinfo.num_lba)

unfoldable pub disk_size : FileKind → Node → DiskInfo → Option (ℕ × ℕ)
unfolding block_size file_size
disk_size block node dinfo = elim node.sect_sz [ none ↦ none | some sz ↦ block_size node dinfo sz ]
disk_size regular node dinfo = file_size node dinfo
disk_size other node dinfo = none

-- The size needed with a partition; the partitions behind it are the last argument. The product
-- has 32 bits.
unfoldable pub add_part : PartInfo → ℕ → List PartInfo → Option ℕ
add_part part total rest =
    if not (part.len_kb == fill)
    then some (u64 (total + u32 (part.len_kb * 1024)))
    else if part.len_kb == 0
    then none
    else if is_some (head_part rest)
    then none
    else some total

-- `PC_PART_TYPE_LINUX` and `PC_PART_TYPE_FAT32`
abbrev pub linux : ℕ
linux = 0x83

abbrev pub fat32 : ℕ
fat32 = 0x0c

unfoldable pub total_size : List PartInfo → ℕ → Option ℕ
unfolding add_part
total_size [] total = some total
total_size (part ∷ rest) total = elim (add_part part total rest) [
  | none ↦ none
  | some next ↦
      if not (part.type == linux) && not (part.type == fat32) then none else total_size rest next
]

abbrev pub is_block : FileKind → Bool
is_block block = true
is_block regular = false
is_block other = false

-- Only on a block device does the total matter.
abbrev pub within : Node → ℕ → Option ℕ → Bool
within node size none = false
within node size (some total) = not (is_block node.kind && ltb size total)

-- Whether the partitions are good for a disk of so many bytes. The product has 32 bits.
unfoldable pub parts_fit : Node → DiskInfo → ℕ → Bool
parts_fit node dinfo size =
    within node size (total_size dinfo.part_lst (u32 (dinfo.skip_lba * dinfo.sect_size)))

abbrev pub judged : Node → DiskInfo → Option (ℕ × ℕ) → DiskInfo × Bool
judged node dinfo none = (dinfo, false)
judged node dinfo (some (size, num_lba)) =
    let sized = record dinfo { num_lba = num_lba } in (sized, parts_fit node sized size)

unfoldable pub validate : Node → DiskInfo → DiskInfo × Bool
validate node dinfo =
    if not node.opens || not node.stats
    then (dinfo, false)
    else judged node dinfo (disk_size node.kind node dinfo)
