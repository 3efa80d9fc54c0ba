-- ===== src/Mbr/Program.antt =====
-- The program editdisklbl/editdisklbl.c: `parse_args` and `main`. The options are those that
-- getopt finds; a host says what is in the files. The messages and the dump are left out.
pub mod Laws
mod Tests
use platform_bootable_iago.Base.{
  ℕ, zero, suc, ◌+◌, ◌*◌, ◌/◌, ◌^◌, Bool, true, false, not, ◌&&◌, ◌||◌, List, [], ◌∷◌, ◌++◌, Option,
  none, some, leb, ◌==◌, if◌then◌else◌, length, u32,
}
use platform_bootable_iago.Device.{Outcome}
use platform_bootable_iago.Mbr.{PartInfo, DiskInfo}
use platform_bootable_iago.Mbr.Validate.{Node, FileKind, block, regular, other}
use platform_bootable_iago.Mbr.Apply.{process_disk_config, apply_disk_config, find_part}
use platform_bootable_iago.Mbr.Image.{write_raw_image}
use platform_bootable_iago.Mbr.Load.{
  ConfigUtils, Loaded, loaded, refused, overrun, ◌>>=◌, ◌>>◌, required, check, load_diskconfig,
  max_num_parts,
}

-- What `getopt` returns, `-h` and an unknown option in one.
pub data Opt : Type 0 where
  layout image : List ℕ → Opt
  test_mode verbose_mode usage : Opt

pub record Args : Type 0 where
  pub layout_conf : Option (List ℕ)
  pub img_file : Option (List ℕ)
  pub test : Bool
  pub verbose : Bool

abbrev pub no_args : Args
no_args = record { layout_conf = none; img_file = none; test = false; verbose = false }

-- The loop over the options; the last of several wins.
unfoldable pub read_opts : List Opt → Args → Loaded Args
read_opts [] a = loaded a
read_opts (layout fn ∷ os) a = read_opts os (record a { layout_conf = some fn })
read_opts (image fn ∷ os) a = read_opts os (record a { img_file = some fn })
read_opts (test_mode ∷ os) a = read_opts os (record a { test = true })
read_opts (verbose_mode ∷ os) a = read_opts os (record a { verbose = true })
read_opts (usage ∷ os) a = refused

-- The files: what is in those that are there, and what the kernel says of a node.
pub record Host : Type 0 where
  pub content : List ℕ → Option (List ℕ)
  pub node : List ℕ → Node
  -- what happens to the reads and to the writes of the image number so and so
  pub reads : ℕ → List Outcome
  pub writes : ℕ → List Outcome

-- `strsep(&pair, "=")`: what is before the first "=" and what is behind it.
unfoldable pub split_pair : List ℕ → Option (List ℕ × List ℕ)
split_pair [] = none
split_pair (c ∷ cs) =
    let rest = split_pair cs in
    if c == b'='
    then some ([], cs)
    else elim rest [ none ↦ none | some (name, file) ↦ some (c ∷ name, file) ]

-- The length of the partition at an index in `part_lst`.
unfoldable pub set_len : ℕ → ℕ → List PartInfo → List PartInfo
set_len i len [] = []
set_len zero len (p ∷ ps) = record p { len_kb = len } ∷ ps
set_len (suc i) len (p ∷ ps) = p ∷ set_len i len ps

-- An item of `part_file_map`: the index of the partition and the name of the file.
pub record PfMap : Type 0 where
  pub pinfo : ℕ
  pub filename : List ℕ

-- A file's size in KB, cut to the 32 bits of `len_kb`.
abbrev pub kb_of : List ℕ → ℕ
kb_of bytes = u32 ((length bytes + 1023) / 1024)

abbrev pub is_regular : FileKind → Bool
is_regular block = false
is_regular regular = true
is_regular other = false

-- Where the partition at an index begins.
abbrev pub start_of : List PartInfo → ℕ → ℕ
start_of [] i = 0
start_of (p ∷ ps) zero = p.start_lba
start_of (p ∷ ps) (suc i) = start_of ps i

-- The offset of an image: the product has 32 bits.
abbrev pub image_offset : DiskInfo → PfMap → ℕ
image_offset dinfo m = u32 (start_of dinfo.part_lst m.pinfo * dinfo.sect_size)

abbrev pub or_old : List ℕ → Option (List ℕ) → List ℕ
or_old dev none = dev
or_old dev (some dev') = dev'

module _ (host : Host) where
  -- The loop over the operands; `x` counts those before.
  unfoldable pub map_files : List (List ℕ) → ℕ → DiskInfo → Loaded (DiskInfo × List PfMap)
  map_files [] x dinfo = loaded (dinfo, [])
  map_files (pair ∷ pairs) x dinfo = do
    check (not (leb max_num_parts x))
    (name, file) ← required (split_pair pair)
    check (not (length file == 0))
    i ← required (find_part dinfo.part_lst name)
    bytes ← required (host.content file)
    (dinfo', maps) ←
        map_files pairs (x + 1) (record dinfo { part_lst = set_len i (kb_of bytes) dinfo.part_lst })
    loaded (dinfo', record { pinfo = i; filename = file } ∷ maps)

  -- The configuration, the files for its partitions, and the options.
  unfoldable pub parse_args :
      ConfigUtils → List Opt → List (List ℕ) → Loaded (DiskInfo × List PfMap × Args)
  parse_args cfg opts operands = do
    args ← read_opts opts no_args
    img_file ← required args.img_file
    layout_conf ← required args.layout_conf
    check (not (length operands == 0))
    check (host.node img_file).stats
    check (is_regular (host.node img_file).kind)
    dinfo ← load_diskconfig cfg layout_conf (some img_file)
    (dinfo', maps) ← map_files operands 0 dinfo
    loaded (dinfo', maps, args)

  -- The loop over the images; without a result the fuel of `write_raw_image` has run out.
  unfoldable pub write_images : Bool → DiskInfo → ℕ → List PfMap → List ℕ → Option (Bool × List ℕ)
  write_images test dinfo cnt [] dev = some (true, dev)
  write_images test dinfo cnt (m ∷ ms) dev =
      elim (write_raw_image (host.reads cnt) (host.writes cnt) (host.content m.filename) (some dev)
        (image_offset dinfo m) test) [
          | none ↦ none
          | some (ok, dst) ↦
              if ok
              then write_images test dinfo (cnt + 1) ms (or_old dev dst)
              else some (false, or_old dev dst)
        ]

  -- `main` behind `parse_args`: whether it returns 0, and the bytes of the device.
  unfoldable pub edit : Bool → DiskInfo → List PfMap → List ℕ → Option (Bool × List ℕ)
  edit test dinfo maps dev =
      let node = host.node dinfo.device in
      let (ok, processed, fd_open) = process_disk_config node dinfo in
      let (ok', applied, dev') = apply_disk_config node processed test dev in
      if not ok
      then some (false, dev)
      else if not ok'
      then some (false, dev')
      else write_images test applied 0 maps dev'

  -- `main`; `device` is what the node of the configuration holds.
  unfoldable pub editdisklbl_main :
      ConfigUtils → List Opt → List (List ℕ) → (List ℕ → List ℕ) → Loaded (Option (Bool × List ℕ))
  editdisklbl_main cfg opts operands device = do
    (dinfo, maps, args) ← parse_args cfg opts operands
    loaded (edit args.test dinfo maps (device dinfo.device))
