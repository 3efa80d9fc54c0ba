-- ===== src/Mbr/Load.antt =====
-- Reading a disk configuration: editdisklbl/diskconfig.c `load_partitions` and `load_diskconfig`.
-- The tree of nodes that libcutils makes of the file is a parameter.
pub mod Laws
pub mod Room
use platform_bootable_iago.Base.{
  ℕ, zero, suc, ◌-◌, ◌^◌, Bool, ◌||◌, ◌&&◌, List, [], ◌∷◌, Option, none, some, min, ltb, leb, ◌==◌,
  if◌then◌else◌, bytes_eq, codes, u32, u64,
}
use platform_bootable_iago.Mbr.{PartInfo, DiskInfo}
use platform_bootable_iago.Mbr.Length.{based, strtoull, parse_len}
use platform_bootable_iago.Mbr.Validate.{linux, fat32}
use platform_bootable_iago.Mbr.Apply.{part_scheme_mbr}

-- The configuration files of libcutils.
pub record ConfigUtils : Type 1 where
  pub Cnode : Type 0
  -- the root node after `config_load_file`
  pub load_file : List ℕ → Cnode
  pub name : Cnode → List ℕ
  -- `first_child`, and `next` from there
  pub children : Cnode → List Cnode
  -- `config_find`
  pub find : Cnode → List ℕ → Option Cnode
  -- `config_str` with the default NULL
  pub str : Cnode → List ℕ → Option (List ℕ)
  -- `config_bool` with the default 0
  pub bool : Cnode → List ℕ → Bool

-- How loading ends. `overrun` is a write behind the end of `part_lst`, which nothing in the code
-- stops: what the program does from there on is undefined, and the model ends.
pub data Loaded {ℓ} (A : Type ℓ) : Type ℓ where
  loaded : A → Loaded A
  refused overrun : Loaded A

infixl 5 ◌>>=◌
abbrev pub ◌>>=◌ {ℓ κ} : {A : Type ℓ} {B : Type κ} → Loaded A → (A → Loaded B) → Loaded B
loaded a >>= f = f a
refused >>= f = refused
overrun >>= f = overrun

infixl 5 ◌>>◌
abbrev pub ◌>>◌ {ℓ κ} : {A : Type ℓ} {B : Type κ} → Loaded A → Loaded B → Loaded B
m >> n = m >>= λ a. n

abbrev pub required {ℓ} : {A : Type ℓ} → Option A → Loaded A
required none = refused
required (some a) = loaded a

abbrev pub check : Bool → Loaded Bool
check b = if b then loaded b else refused

abbrev pub first_of {ℓ} : {A : Type ℓ} → List A → Option A
first_of [] = none
first_of (x ∷ xs) = some x

-- The value of a key, or the default.
abbrev pub or_default : Option (List ℕ) → List ℕ → List ℕ
or_default none dfl = dfl
or_default (some v) dfl = v

-- `strtol` behind the white space, as the 64 bits of its result.
unfoldable pub long_of : List ℕ → ℕ
long_of [] = 0
long_of (c ∷ cs) =
    if c == b'-'
    then (if leb (based cs) (2 ^ 63) then u64 (2 ^ 64 - based cs) else 2 ^ 63)
    else min (if c == b'+' then based cs else based (c ∷ cs)) (2 ^ 63 - 1)

-- `strtol(str, NULL, 0)`.
unfoldable pub strtol : List ℕ → ℕ
unfolding long_of
strtol [] = 0
strtol (c ∷ cs) =
    let rest = strtol cs in if c == 32 || (leb 9 c && leb c 13) then rest else long_of (c ∷ cs)

unfoldable pub type_of : List ℕ → Loaded ℕ
type_of s =
    if bytes_eq s (codes "linux")
    then loaded linux
    else if bytes_eq s (codes "fat32")
    then loaded fat32
    else refused

-- A length of a partition; 0 where there is none.
unfoldable pub len_of : Option (List ℕ) → Loaded ℕ
len_of none = loaded 0
len_of (some s) = do len ← required (parse_len s); loaded (u32 len)

-- `MAX_NUM_PARTS`
abbrev pub max_num_parts : ℕ
max_num_parts = 16

module _ (cfg : ConfigUtils) where
  -- A round of the loop of `load_partitions`.
  unfoldable pub load_partition : cfg.Cnode → Loaded PartInfo
  load_partition node = do
    s ← required (cfg.str node (codes "type"))
    type ← type_of s
    len ← len_of (cfg.str node (codes "len"))
    loaded (record {
      name = cfg.name node;
      flags = if cfg.bool node (codes "active") then 1 else 0;
      type = type;
      len_kb = len;
      start_lba = 0;
    })

  -- The nodes that are left, where the array has `room` for more partitions. The code counts on
  -- without a look at the room.
  unfoldable pub load_partitions : ℕ → List cfg.Cnode → Loaded (List PartInfo)
  load_partitions room [] = loaded []
  load_partitions zero (node ∷ nodes) = overrun
  load_partitions (suc room) (node ∷ nodes) = do
    p ← load_partition node
    ps ← load_partitions room nodes
    loaded (p ∷ ps)

  -- The scheme that the configuration asks for.
  unfoldable pub scheme_of : List ℕ → Loaded ℕ
  scheme_of s = if bytes_eq s (codes "mbr") then loaded part_scheme_mbr else refused

  -- The override is only the default.
  unfoldable pub device_of : cfg.Cnode → Option (List ℕ) → Loaded (List ℕ)
  device_of devroot path_override = elim (cfg.str devroot (codes "path")) [
    | some path ↦ loaded path
    | none ↦ required path_override
  ]

  -- `load_diskconfig` from the device section on.
  unfoldable pub load_device : cfg.Cnode → Option (List ℕ) → Loaded DiskInfo
  load_device devroot path_override = do
    device ← device_of devroot path_override
    s ← required (cfg.str devroot (codes "scheme"))
    scheme ← scheme_of s
    let sect_size = u32 (strtol (or_default (cfg.str devroot (codes "sector_size")) (codes "512")))
    check (ltb 0 sect_size)
    start ← required (cfg.str devroot (codes "start_lba"))
    let skip_lba = u32 (strtol start)
    check (ltb 0 skip_lba)
    num ← required (cfg.str devroot (codes "num_lba"))
    partnode ← required (cfg.find devroot (codes "partitions"))
    parts ← load_partitions max_num_parts (cfg.children partnode)
    loaded (record {
      device = device;
      scheme = scheme;
      sect_size = sect_size;
      skip_lba = skip_lba;
      num_lba = u32 (strtoull num);
      part_lst = parts;
    })

  -- A file without a node, and one without the section "device", are refused.
  unfoldable pub load_diskconfig : List ℕ → Option (List ℕ) → Loaded DiskInfo
  load_diskconfig fn path_override = do
    let root = cfg.load_file fn
    first ← required (first_of (cfg.children root))
    devroot ← required (cfg.find root (codes "device"))
    load_device devroot path_override
