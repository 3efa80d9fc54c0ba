-- ===== src/Mbr.antt =====
-- The MBR partition editor: editdisklbl/config_mbr.c and editdisklbl/write_lst.c, with the structs
-- of editdisklbl/diskconfig.h.
pub mod Apply
pub mod Commit
pub mod Device
pub mod Entries
pub mod Image
pub mod Length
pub mod Load
pub mod Program
pub mod Validate
mod Tests
use platform_bootable_iago.Base.{
  ℕ, zero, suc, ◌+◌, ◌-◌, ◌*◌, ◌/◌, ◌^◌, Bool, true, false, not, ◌&&◌, ◌||◌, List, [], ◌∷◌, ◌++◌,
  Option, none, some, ltb, leb, ◌==◌, if◌then◌else◌, length, splice, bytes_eq, bit_and, le_bytes,
  replicate, u32, u64,
}
use platform_bootable_iago.Gpt.Name.{decimal}

-- `struct part_info`.
pub record PartInfo : Type 0 where
  pub name : List ℕ
  pub flags : ℕ
  pub type : ℕ
  pub len_kb : ℕ
  pub start_lba : ℕ

-- `struct disk_info`; `num_parts` is the length of the list.
pub record DiskInfo : Type 0 where
  pub device : List ℕ
  pub scheme : ℕ
  pub sect_size : ℕ
  pub skip_lba : ℕ
  pub num_lba : ℕ
  pub part_lst : List PartInfo

-- An item of `struct write_list`.
pub record WriteItem : Type 0 where
  pub offset : ℕ
  pub bytes : List ℕ

-- `PC_NUM_BOOT_RECORD_PARTS`
abbrev pub num_boot_record_parts : ℕ
num_boot_record_parts = 4

-- `(uint32_t)-1`, the length of a partition that fills the disk.
abbrev pub fill : ℕ
fill = 0xffffffff

-- What `cfg_pentry` leaves in a `struct pc_partition`: its 16 bytes.
unfoldable pub cfg_pentry : ℕ → ℕ → ℕ → ℕ → List ℕ
unfolding replicate
cfg_pentry status type start len =
    let chs : List ℕ = if ltb 0 len then replicate 3 0xff else replicate 3 0 in
    status ∷ (chs ++ (type ∷ (chs ++ (le_bytes 4 start ++ le_bytes 4 len))))

-- Bytes to blocks, rounded up by a mask.
unfoldable pub to_lba : ℕ → ℕ → ℕ
to_lba len_kb sect_size =
    bit_and (u64 (len_kb * 1024 + sect_size - 1)) (2 ^ 64 - sect_size) / sect_size

unfoldable pub kb_to_lba : ℕ → ℕ → ℕ
unfolding to_lba
kb_to_lba len_kb sect_size = u32 (to_lba len_kb sect_size)

-- Where the MBR has its entry `pnum`.
abbrev pub pentry_offset : ℕ → ℕ
pentry_offset pnum = 446 + 16 * pnum

-- A primary partition: the item, the partition with its place, and the block behind it.
unfoldable pub mk_pri_pentry : DiskInfo → PartInfo → ℕ → ℕ → Option (WriteItem × PartInfo × ℕ)
unfolding to_lba
mk_pri_pentry dinfo pinfo pnum lba =
    let len_lba =
      if pinfo.len_kb == fill
      then u32 (dinfo.num_lba + 2 ^ 32 - lba)
      else u32 (to_lba pinfo.len_kb dinfo.sect_size) in
    let status = if bit_and pinfo.flags 1 == 0 then 0 else 0x80 in
    if leb num_boot_record_parts pnum
    then none
    else some (
      record { offset = pentry_offset pnum; bytes = cfg_pentry status pinfo.type lba len_lba },
      record pinfo { start_lba = lba },
      u32 (lba + len_lba),
    )

-- `mk_pri_pentry` without a partition: the extended partition, over the rest of the disk.
unfoldable pub mk_extended : DiskInfo → ℕ → ℕ → Option WriteItem
mk_extended dinfo pnum lba =
    if leb num_boot_record_parts pnum
    then none
    else some (record {
      offset = pentry_offset pnum;
      bytes = cfg_pentry 0 0x05 lba (u32 (dinfo.num_lba + 2 ^ 32 - lba));
    })

-- The 512 bytes of an extended boot record with two entries.
abbrev ebr : List ℕ → List ℕ → List ℕ
ebr part next = replicate 446 0 ++ (part ++ (next ++ (replicate 32 0 ++ le_bytes 2 0xAA55)))

-- The link to the next extended boot record; zeros where there is none.
unfoldable pub next_pentry : DiskInfo → ℕ → ℕ → Option PartInfo → List ℕ
unfolding kb_to_lba
next_pentry dinfo lba ext_lba none = replicate 16 0
next_pentry dinfo lba ext_lba (some pnext) = cfg_pentry 0 0x05 (u32 (lba + 2 ^ 32 - ext_lba)) (
    if pnext.len_kb == fill
    then u32 (dinfo.num_lba + 2 ^ 32 - lba)
    else u32 (1 + kb_to_lba pnext.len_kb dinfo.sect_size))

abbrev pub is_some {ℓ} : {A : Type ℓ} → Option A → Bool
is_some none = false
is_some (some a) = true

-- A logical partition: its extended boot record, the partition with its place, and the block
-- behind it. Only the last one may fill the disk.
unfoldable pub mk_ext_pentry :
    DiskInfo → PartInfo → ℕ → ℕ → Option PartInfo → Option (WriteItem × PartInfo × ℕ)
unfolding next_pentry kb_to_lba
mk_ext_pentry dinfo pinfo lba ext_lba pnext =
    let first = u32 (lba + 1) in
    let fills = pinfo.len_kb == fill in
    let len =
      if fills
      then u32 (dinfo.num_lba + 2 ^ 32 - first)
      else kb_to_lba pinfo.len_kb dinfo.sect_size in
    let len_kb = if fills then u32 (len * dinfo.sect_size / 1024) else pinfo.len_kb in
    let behind = u32 (first + len) in
    if fills && is_some pnext
    then none
    else some (
      record {
        offset = u64 (lba * dinfo.sect_size);
        bytes = ebr (cfg_pentry 0 pinfo.type 1 len) (next_pentry dinfo behind ext_lba pnext);
      },
      record pinfo { len_kb = len_kb; start_lba = first },
      behind,
    )

-- The 64 bytes of an empty table and the signature.
abbrev pub mk_empty_ptable : WriteItem
mk_empty_ptable = record { offset = 446; bytes = replicate 64 0 ++ (0x55 ∷ 0xAA ∷ []) }

-- The state of the loop of `config_mbr`.
pub record Config : Type 0 where
  pub cur_lba : ℕ
  pub ext_lba : ℕ
  pub extended : Bool
  pub wr_list : List WriteItem

abbrev pub extra : Bool → ℕ
extra false = 0
extra true = 1

-- Where the fourth of more than four partitions is due, the extended partition is made first.
unfoldable pub extend : DiskInfo → ℕ → Bool → Config → Option Config
unfolding mk_extended
extend dinfo cnt more c =
    if (cnt == num_boot_record_parts - 1) && more
    then elim (mk_extended dinfo cnt c.cur_lba) [
      | none ↦ none
      | some item ↦
          some (record c { extended = true; ext_lba = c.cur_lba; wr_list = item ∷ c.wr_list })
    ]
    else some c

-- The test that leads to `nospace`.
unfoldable pub no_space : DiskInfo → PartInfo → Config → Bool
no_space dinfo pinfo c =
    let sz_lba = u32 (pinfo.len_kb / dinfo.sect_size * 1024) in
    not (dinfo.num_lba == 0)
    && (leb dinfo.num_lba (u32 (c.cur_lba + extra c.extended))
        || (not (pinfo.len_kb == fill)
            && ltb dinfo.num_lba (u32 (c.cur_lba + sz_lba + extra c.extended))))

abbrev pub head_part : List PartInfo → Option PartInfo
head_part [] = none
head_part (p ∷ ps) = some p

-- One round: the partition with its place, and the state after it.
unfoldable pub config_part :
    DiskInfo → ℕ → PartInfo → List PartInfo → Config → Option (PartInfo × Config)
unfolding extend no_space mk_pri_pentry mk_ext_pentry
config_part dinfo cnt pinfo rest c = elim (extend dinfo cnt (is_some (head_part rest)) c) [
  | none ↦ none
  | some c' ↦
      if no_space dinfo pinfo c'
      then none
      else elim (if c'.extended
          then mk_ext_pentry dinfo pinfo c'.cur_lba c'.ext_lba (head_part rest)
          else mk_pri_pentry dinfo pinfo cnt c'.cur_lba) [
            | none ↦ none
            | some (item, pinfo', lba) ↦
                some (pinfo', record c' { cur_lba = lba; wr_list = item ∷ c'.wr_list })
          ]
]

unfoldable pub config_parts :
    DiskInfo → ℕ → List PartInfo → Config → Option (List PartInfo × Config)
unfolding config_part
config_parts dinfo cnt [] c = some ([], c)
config_parts dinfo cnt (p ∷ ps) c = elim (config_part dinfo cnt p ps c) [
  | none ↦ none
  | some (p', c') ↦ elim (config_parts dinfo (cnt + 1) ps c') [
    | none ↦ none
    | some (ps', c'') ↦ some (p' ∷ ps', c'')
  ]
]

abbrev pub blank : PartInfo
blank = record { name = []; flags = 0; type = 0; len_kb = 0; start_lba = 0 }

-- The entries from `cnt` on, `n` of them, left empty.
unfoldable pub fill_blank : ℕ → ℕ → DiskInfo → List WriteItem → Option (List WriteItem)
unfolding mk_pri_pentry
fill_blank zero cnt dinfo wr = some wr
fill_blank (suc n) cnt dinfo wr = elim (mk_pri_pentry dinfo blank cnt 0) [
  | none ↦ none
  | some (item, p, lba) ↦ fill_blank n (cnt + 1) dinfo (item ∷ wr)
]

-- The write list, and the partitions with their places; `none` is NULL.
unfoldable pub config_mbr : DiskInfo → Option (List WriteItem × List PartInfo)
unfolding config_parts fill_blank
config_mbr dinfo =
    elim (config_parts dinfo 0 dinfo.part_lst
      (record { cur_lba = dinfo.skip_lba; ext_lba = 0; extended = false; wr_list = [] })) [
        | none ↦ none
        | some (parts, c) ↦
            elim (fill_blank (num_boot_record_parts - length parts) (length parts) dinfo
              c.wr_list) [ none ↦ none | some wr ↦ some (mk_empty_ptable ∷ wr, parts) ]
      ]

-- `wlist_commit` on a device's bytes. A seek and a write inside the device succeed; a write over
-- its end is short and ends the loop.
unfoldable pub wlist_commit : List WriteItem → Bool → List ℕ → Bool × List ℕ
wlist_commit [] test dev = (true, dev)
wlist_commit (w ∷ ws) test dev =
    let next : List ℕ = if test then dev else splice w.offset w.bytes dev in
    let rest = wlist_commit ws test next in
    if test || leb (w.offset + length w.bytes) (length dev) then rest else (false, next)

-- The index of the first partition of that name, from 1.
unfoldable pub find_name : ℕ → List PartInfo → List ℕ → Option ℕ
find_name num [] name = none
find_name num (p ∷ ps) name =
    let rest = find_name (num + 1) ps name in if bytes_eq p.name name then some num else rest

-- `MAX_NAME_LEN`
abbrev pub max_name_len : ℕ
max_name_len = 512

-- The device node, where it has fewer than `max_name_len` characters. Behind the extended
-- partition the numbers are one higher.
unfoldable pub find_mbr_part : DiskInfo → List ℕ → Option (List ℕ)
unfolding find_name
find_mbr_part dinfo name = elim (find_name 1 dinfo.part_lst name) [
  | none ↦ none
  | some num ↦
      let has_extended = ltb num_boot_record_parts (length dinfo.part_lst) in
      let index = if has_extended && leb num_boot_record_parts num then num + 1 else num in
      let dev_name = dinfo.device ++ decimal index in
      if leb max_name_len (length dev_name) then none else some dev_name
]
