-- ===== src/Mbr/Program/Tests.antt =====
-- Runs of the models of editdisklbl/diskconfig.c, diskutils.c and editdisklbl.c, and their theorems
-- at a concrete image.
use platform_bootable_iago.Base.{
  ℕ, zero, suc, ◌+◌, ◌^◌, ◌*◌, ◌≤◌, ◌≡◌, ◌≢◌, length, ◌↔◌, inr, refl, arith, true, false, List, [],
  ◌∷◌, All, All-replicate, Option, none, some, length-replicate, take, replicate, patch, bytes_eq,
  codes, if◌then◌else◌,
}
use mathlib.Core.Path.{subst}
use mathlib.Core.Option.{some-injective, none-ne-some}
use platform_bootable_iago.Device.{Outcome, upto, eintr}
use platform_bootable_iago.Mbr.{
  PartInfo, DiskInfo, to_lba, mk_pri_pentry, extend, no_space, config_part, config_parts,
  fill_blank, config_mbr,
}
use platform_bootable_iago.Mbr.Length.{
  digit_value, digits, based, signed, strtoull, multiple_of, scaled, number_part, parse_tmp,
  parse_len,
}
use platform_bootable_iago.Mbr.Validate.{
  Node, block, regular, block_size, file_size, disk_size, add_part, total_size, parts_fit, validate,
  is_block,
}
use platform_bootable_iago.Mbr.Validate.Laws.{skipped, validate_iff, validate_wraps}
use platform_bootable_iago.Mbr.Validate.Total.{IsKnown, FillsLast, needs, need}
use platform_bootable_iago.Mbr.Apply.{
  configure, validate_and_config, process_disk_config, apply_disk_config, find_part,
}
use platform_bootable_iago.Mbr.Apply.Laws.{apply_disk_config-process}
use platform_bootable_iago.Mbr.Load.{
  ConfigUtils, loaded, overrun, long_of, strtol, type_of, len_of, load_partition, load_partitions,
  scheme_of, device_of, load_device, load_diskconfig,
}
use platform_bootable_iago.Mbr.Load.Laws.{
  Loads, IsLoaded, load_diskconfig-IsLoaded, load_partitions_overrun,
}
use platform_bootable_iago.Mbr.Image.{write_raw_image}
use platform_bootable_iago.Mbr.Image.Laws.{write_raw_image-patch}
use platform_bootable_iago.Mbr.Program.{
  Host, PfMap, split_pair, map_files, read_opts, parse_args, set_len, layout, image,
}
use platform_bootable_iago.Mbr.Tests.{boot, two}

-- A disk of 51200000 bytes, and a file of that size.
abbrev disk : Node
disk = record {
  opens = true;
  stats = true;
  kind = block;
  st_size = 0;
  sect_sz = some 512;
  size = some 51200000;
  rereads = true;
}

abbrev file : Node
file = record disk { kind = regular; st_size = 51200000; sect_sz = none; size = none }

disk_known :
    (ps : List PartInfo)
    → disk_size disk.kind disk (record two { part_lst = ps }) ≡ some (51200000, 100000)
unfolding disk_size block_size
disk_known ps = refl

validate_iff_example : ((validate disk two).1 ≡ true) ↔ (
    All IsKnown two.part_lst
    × FillsLast two.part_lst
    × (is_block disk.kind ≡ true → skipped two + needs two.part_lst ≤ 51200000))
validate_iff_example =
    validate_iff disk two 51200000 100000 refl refl (disk_known two.part_lst) (omega arith)
      (omega arith, (omega arith, tt)) (omega arith)

-- 4 GiB on a disk of 50 MB.
abbrev large : PartInfo
large = record boot { len_kb = 4194304 }

validate_wraps_example :
    ((validate disk (record two { part_lst = large ∷ [] })).1 ≡ true) × (need large ≡ 1 * 2 ^ 32)
validate_wraps_example =
    validate_wraps disk (record two { part_lst = large ∷ [] }) 51200000 100000 large 1 refl refl
      (disk_known (large ∷ [])) refl (inr refl) refl (omega arith) (omega arith) (omega arith)

two_processed : (process_disk_config file two).0 ≡ true
unfolding process_disk_config validate_and_config validate disk_size file_size parts_fit total_size
    add_part configure config_mbr config_parts config_part extend no_space mk_pri_pentry to_lba
    fill_blank
two_processed = refl

apply_disk_config-process_example :
    apply_disk_config file (process_disk_config file two).1 true (replicate 600 7)
    ≡ apply_disk_config file two true (replicate 600 7)
apply_disk_config-process_example =
    apply_disk_config-process file two true (replicate 600 7) refl (omega arith) two_processed

-- A configuration file, as a tree of four nodes: the root, "device", "partitions" and a partition
-- "b" of type fat32 with 1000 KB.
abbrev node_find : ℕ → List ℕ → Option ℕ
node_find zero key = if bytes_eq key (codes "device") then some 1 else none
node_find (suc zero) key = if bytes_eq key (codes "partitions") then some 2 else none
node_find (suc (suc n)) key = none

abbrev node_str : ℕ → List ℕ → Option (List ℕ)
node_str zero key = none
node_str (suc zero) key =
    if bytes_eq key (codes "scheme")
    then some (codes "mbr")
    else if bytes_eq key (codes "start_lba")
    then some (codes "2048")
    else if bytes_eq key (codes "num_lba")
    then some (codes "100000")
    else none
node_str (suc (suc n)) key =
    if bytes_eq key (codes "type")
    then some (codes "fat32")
    else if bytes_eq key (codes "len")
    then some (codes "1000")
    else none

abbrev node_children : ℕ → List ℕ
node_children zero = 1 ∷ []
node_children (suc zero) = 2 ∷ []
node_children (suc (suc zero)) = 3 ∷ []
node_children (suc (suc (suc n))) = []

abbrev cfg : ConfigUtils
cfg = record {
  Cnode = ℕ;
  load_file = λ fn. 0;
  name = λ n. codes "b";
  children = node_children;
  find = node_find;
  str = node_str;
  bool = λ n key. true;
}

abbrev one : DiskInfo
one = record two { part_lst = boot ∷ [] }

boot_loads : load_partition cfg 3 ≡ loaded boot
unfolding load_partition type_of len_of bytes_eq parse_len parse_tmp number_part scaled multiple_of
    strtoull signed based digits digit_value
boot_loads = refl

one_loads : load_diskconfig cfg (codes "c") (some (codes "sda")) ≡ loaded one
unfolding load_diskconfig load_device device_of scheme_of load_partitions load_partition type_of
    len_of bytes_eq parse_len parse_tmp number_part scaled multiple_of strtoull signed based digits
    digit_value strtol long_of
one_loads = refl

no_more : (n m : ℕ) → node_find n (codes "partitions") ≡ some m → length (node_children m) ≤ 16
unfolding bytes_eq
no_more zero m e = absurd (none-ne-some m e)
no_more (suc zero) m e =
    subst (λ k. length (node_children k) ≤ 16) (some-injective 2 m e) (omega arith)
no_more (suc (suc n)) m e = absurd (none-ne-some m e)

load_diskconfig-IsLoaded_example :
    (load_diskconfig cfg (codes "c") (some (codes "sda")) ≢ overrun)
    × ((dinfo : DiskInfo)
        → load_diskconfig cfg (codes "c") (some (codes "sda")) ≡ loaded dinfo
        → IsLoaded cfg (codes "c") dinfo)
load_diskconfig-IsLoaded_example =
    load_diskconfig-IsLoaded cfg (codes "c") (some (codes "sda")) (λ devroot e. no_more devroot)

sixteen : All (Loads cfg) (take 16 (replicate 17 3))
unfolding replicate
sixteen = All-replicate (Loads cfg) 16 3 (boot, boot_loads)

load_partitions_overrun_example : load_partitions cfg 16 (replicate 17 3) ≡ overrun
load_partitions_overrun_example =
    load_partitions_overrun cfg 16 (replicate 17 3) (omega (arith, length-replicate {A = ℕ} 17 3))
      sixteen

abbrev calls : List Outcome
calls = eintr ∷ upto 2 ∷ []

write_raw_image-patch_example :
    write_raw_image calls (eintr ∷ []) (some (codes "image")) (some (replicate 600 7)) 512 false
    ≡ some (true, some (patch 512 (codes "image") (replicate 600 7)))
write_raw_image-patch_example =
    write_raw_image-patch calls (eintr ∷ []) (codes "image") (replicate 600 7) 512 (omega arith, tt)
      tt (omega arith)

abbrev host : Host
host = record {
  content = λ fn. some (codes "image");
  node = λ fn. file;
  reads = λ n. calls;
  writes = λ n. [];
}

abbrev first : PfMap
first = record { pinfo = 0; filename = codes "f" }

-- The arguments "-l c -i sda b=f", for a file of 5 bytes.
parsed :
    parse_args host cfg (layout (codes "c") ∷ image (codes "sda") ∷ []) (codes "b=f" ∷ [])
    ≡ loaded (
      record one { part_lst = record boot { len_kb = 1 } ∷ [] },
      first ∷ [],
      record {
        layout_conf = some (codes "c");
        img_file = some (codes "sda");
        test = false;
        verbose = false;
      },
    )
unfolding parse_args read_opts map_files split_pair find_part set_len load_diskconfig load_device
    device_of scheme_of load_partitions load_partition type_of len_of bytes_eq parse_len parse_tmp
    number_part scaled multiple_of strtoull signed based digits digit_value strtol long_of
parsed = refl
