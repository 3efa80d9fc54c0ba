-- ===== src/Lib.antt =====
-- Iago, the installer that puts Android on a PC's disk: its GUID partition table library and the
-- partitioner that uses it.
--
-- libgpt/gpt.c keeps a partition table as `struct gpt`: the header, the array of entries behind a
-- pointer, and the geometry of the disk. `gpt_new` makes an empty table, or `gpt_read` reads one;
-- the installer (installer/partitioner.c) searches it for free space, creates and deletes entries
-- in memory, and writes it back with `gpt_write`, to both ends of the disk and with a protective
-- MBR. The model follows these parts:
--
--   Base       byte lists, little-endian numbers, windows of a list (`slice`, `splice`)
--   Device     `robust_read` and `robust_write` of libgpt/gpt.c; a device is a list of bytes, and
--              a schedule says which of the kernel's calls are short, interrupted or failing
--   Gpt/Guid   `struct guid`, the constants of the partition types, `guidcmp`, `generate_uuid`
--   Gpt/Entry, Gpt/Header   the packed structs of include/gpt/gpt.h and their bytes on disk
--   Gpt/Table  `struct gpt`; `gpt_entry_offset`, `gpt_entry_get`, `gpt_next_index` and the macro
--              `partition_for_each`
--   Gpt/Name   the names of partitions, `gpt_get_device_node`
--   Gpt/Edit   `gpt_new`, `gpt_copy`, `gpt_entry_create`, `gpt_entry_delete`
--   Gpt/Disk   the checksums, `gpt_write` and `gpt_read`; Gpt/Disk/Protective, the MBR that
--              `gpt_write` leaves
--   Gpt/Guid/Text   `gpt_guid_to_string`
--   Gpt/Init   `get_sizes` and `gpt_init`
--   Gpt/FreeSpace   `gpt_find_contiguous_free_space`, and `gpt_entry_create` in the space found
--   Mbr        editdisklbl/config_mbr.c, which lays out an MBR with its extended boot records, and
--              `wlist_commit` of editdisklbl/write_lst.c, which writes it to a device
--   Mbr/Entries, Mbr/Device   the entries that a commit leaves in the MBR, and the rest of the device
--   Mbr/Length, Mbr/Load   `parse_len`, `load_partitions` and `load_diskconfig` of
--              editdisklbl/diskconfig.c
--   Mbr/Validate, Mbr/Apply   `validate`, `process_disk_config` and `apply_disk_config` there
--   Mbr/Image  `write_raw_image` of editdisklbl/diskutils.c
--   Mbr/Program   `parse_args` and `main` of editdisklbl/editdisklbl.c
--   Options    string lists and numbers of installer/util.c, and the option hash map's interface
--   Partitioner/Sizes     rounding, MiB and blocks in installer/partitioner.c
--   Partitioner/Android   `check_for_ptn`, `check_for_android`, `delete_android`
--   Partitioner/Dialog    the decisions of `partitioner_cli`
--   Partitioner/Create    `mkpart_cb` and `create_android_partitions`; Partitioner/Create/Skip, the
--              entries of the list that `mkpart_cb` passes over
--   Partitioner/Prepare   `partitioner_prepare` and `get_ntfs_min_size`; Options/Append, the string
--              lists that it makes
--   Partitioner/Execute   `execute_wipe_disk`, `execute_dual_boot` and `partitioner_execute`
--   Util/Copy  `xwrite` and the copies of files by `__dd` in installer/util.c
--   Installer  the plugins and phases of installer/main.c
--   Preinit    the search for the installation media in preinit/preinit.c; Preinit/Detect, its
--              tests for file systems
--
-- installer/main.c calls the plugins phase by phase; the partitioner is the first of them.
-- preinit/preinit.c runs before, as the first program of the installation media. editdisklbl is a
-- tool of its own that makes the MBR of an installation image from a list of partitions and copies
-- the partitions' images into place.
--
-- Each function of the code is a function of the same name on the record that stands for its
-- state. The entry array is its bytes in disk order: an entry is decoded where the code reads it
-- through a pointer and spliced in where the code assigns it. Numbers are natural numbers with
-- the wrap-around of their width written out. Pointers that may be NULL are options. Loops over
-- the table are recursion on the number of rounds left, which the header gives; the loops around
-- read and write are recursion on the schedule, after whose end every call transfers all it can, so
-- that a kernel that interrupts for ever, with which these loops do not end, is not modelled;
-- a copying loop has as fuel the length of the schedule and of the source and one more, and uses up
-- an outcome or a byte in each round.
--
-- Parameters: zlib's `crc32`, the value that it starts from, and the memory behind a header
-- (`Gpt.Disk.Host`), the bytes that /dev/urandom gives, the hash map of libcutils
-- (`Options.Hashmap`) and its configuration trees (`Mbr.Load.ConfigUtils`), the layout of the ext2
-- superblock (`Preinit.Detect.Ext2`), the match with preinit's pattern, the floating-point percentage
-- of the progress, and what the kernel and ntfsresize answer (`Gpt.Init.Sysfs`,
-- `Mbr.Validate.Node`, `Mbr.Program.Host`, `Partitioner.Execute.System`,
-- `Partitioner.Prepare.BlockDev`, `Preinit.Media`). The end of the installer by `die` is `none`.
-- `load_partitions` writes behind `part_lst` from partition 17 on; what C does after that is
-- undefined, so the model stops there, with `overrun`, and claims nothing of what follows.
--
-- Not modelled: failing allocations, log messages and dumps, the ioctl call that makes the kernel
-- read a table again, the plugins behind the partitioner (imagewriter, ota, finalizer, the
-- bootloaders), which mount and copy, and of installer/util.c the processes, mounts and terminals.
-- The copy of newfs_msdos in the installer is another project's.
pub mod Base
pub mod Device
pub mod Gpt
pub mod Installer
pub mod Mbr
pub mod Options
pub mod Partitioner
pub mod Preinit
pub mod Util
