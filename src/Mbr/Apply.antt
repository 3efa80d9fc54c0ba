-- ===== src/Mbr/Apply.antt =====
-- Applying a disk configuration: editdisklbl/diskconfig.c from `validate_and_config` on.
pub mod Second
pub mod Again
pub mod Laws
use platform_bootable_iago.Base.{
  ℕ, suc, Bool, true, false, not, ◌&&◌, ◌||◌, List, [], ◌∷◌, Option, none, some, ◌==◌,
  if◌then◌else◌, bytes_eq,
}
use platform_bootable_iago.Mbr.{
  PartInfo, DiskInfo, WriteItem, config_mbr, wlist_commit, find_mbr_part,
}
use platform_bootable_iago.Mbr.Validate.{Node, validate, is_block}

abbrev pub part_scheme_mbr : ℕ
part_scheme_mbr = 1

-- What `validate_and_config` leaves: the configuration, the write list (`none` is the result 1),
-- and whether the descriptor that it passes back is open.
pub record Configured : Type 0 where
  pub dinfo : DiskInfo
  pub lst : Option (List WriteItem)
  pub fd_open : Bool

abbrev pub configured : DiskInfo → Option (List WriteItem × List PartInfo) → Configured
configured dinfo none = record { dinfo = dinfo; lst = none; fd_open = true }
configured dinfo (some (wr, parts)) = record {
  dinfo = record dinfo { part_lst = parts };
  lst = some wr;
  fd_open = true;
}

-- The switch on the scheme.
unfoldable pub configure : DiskInfo → Configured
configure dinfo =
    if dinfo.scheme == part_scheme_mbr
    then configured dinfo (config_mbr dinfo)
    else record { dinfo = dinfo; lst = none; fd_open = false }

unfoldable pub validate_and_config : Node → DiskInfo → Configured
validate_and_config node dinfo =
    let (sized, valid) = validate node dinfo in
    if valid then configure sized else record { dinfo = sized; lst = none; fd_open = false }

-- The result, the configuration, and whether the descriptor is still open.
abbrev pub processed : Configured → Option (List WriteItem) → Bool × DiskInfo × Bool
processed c none = (false, c.dinfo, c.fd_open)
processed c (some wr) = (true, c.dinfo, false)

unfoldable pub process_disk_config : Node → DiskInfo → Bool × DiskInfo × Bool
process_disk_config node dinfo = let c = validate_and_config node dinfo in processed c c.lst

-- `sync_ptable`; `false` is -1.
unfoldable pub sync_ptable : Node → Bool
sync_ptable node = node.stats && (not (is_block node.kind) || node.rereads)

-- What follows the commit: its result, the configuration and the bytes of the device.
abbrev pub finish : Node → DiskInfo → Bool → Bool × List ℕ → Bool × DiskInfo × List ℕ
finish node dinfo test (committed, dev) = (committed && (test || sync_ptable node), dinfo, dev)

abbrev pub applied :
    Node → DiskInfo → Bool → List ℕ → Option (List WriteItem) → Bool × DiskInfo × List ℕ
applied node dinfo test dev none = (false, dinfo, dev)
applied node dinfo test dev (some wr) = finish node dinfo test (wlist_commit wr test dev)

-- The result, the configuration and the bytes of the device; `true` is 0.
unfoldable pub apply_disk_config : Node → DiskInfo → Bool → List ℕ → Bool × DiskInfo × List ℕ
apply_disk_config node dinfo test dev =
    let c = validate_and_config node dinfo in applied node c.dinfo test dev c.lst

-- The first partition of that name: its index in `part_lst`, which stands for the pointer.
unfoldable pub find_part : List PartInfo → List ℕ → Option ℕ
find_part [] name = none
find_part (p ∷ ps) name =
    let rest = find_part ps name in
    if bytes_eq p.name name then some 0 else elim rest [ none ↦ none | some i ↦ some (suc i) ]

-- `none` is NULL.
unfoldable pub find_part_device : DiskInfo → List ℕ → Option (List ℕ)
find_part_device dinfo name =
    if dinfo.scheme == part_scheme_mbr then find_mbr_part dinfo name else none
