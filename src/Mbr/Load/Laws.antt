-- ===== src/Mbr/Load/Laws.antt =====
-- What editdisklbl/diskconfig.c `load_diskconfig` gives.
use platform_bootable_iago.Base.{
  ℕ, zero, suc, ◌^◌, ◌≤◌, ◌<◌, ◌≡◌, ◌≢◌, refl, ap, sym, ◌⊎◌, inl, inr, arith, Bool, true, false,
  Bool-cases, List, [], ◌∷◌, All, Option, none, some, ltb, ltb→lt, if◌then◌else◌, length, take,
  bytes_eq, codes, u32,
}
use mathlib.Core.Path.{subst}
use platform_bootable_iago.Mbr.{PartInfo, DiskInfo}
use platform_bootable_iago.Mbr.Length.{parse_len}
use platform_bootable_iago.Mbr.Validate.{linux, fat32}
use platform_bootable_iago.Mbr.Validate.Total.{IsKnown}
use platform_bootable_iago.Mbr.Apply.{part_scheme_mbr}
use platform_bootable_iago.Mbr.Load.Room.{
  loaded-injective, required-some, HasRoom, load_diskconfig-Inside,
}
use platform_bootable_iago.Mbr.Load.{
  ConfigUtils, Loaded, loaded, refused, overrun, ◌>>=◌, required, check, or_default, type_of,
  len_of, load_partition, load_partitions, scheme_of, load_device, load_diskconfig, max_num_parts,
  strtol, device_of, first_of,
}

-- What a successful step gave, and how the rest went on from it.
pub bind-loaded {ℓ κ} :
    {A : Type ℓ} {B : Type κ} (m : Loaded A) (f : A → Loaded B) (b : B)
    → (m >>= f) ≡ loaded b
    → (a : A) × (m ≡ loaded a) × (f a ≡ loaded b)
bind-loaded (loaded a) f b e = (a, refl, e)
bind-loaded refused f b e = ground arith
bind-loaded overrun f b e = ground arith

check-true : (b a : Bool) → check b ≡ loaded a → b ≡ true
check-true true a e = refl
check-true false a e = ground arith

type_of-known : (s : List ℕ) (t : ℕ) → type_of s ≡ loaded t → (t ≡ linux) ⊎ (t ≡ fat32)
unfolding type_of
type_of-known s t e = elim (Bool-cases (bytes_eq s (codes "linux"))) [
  | inl is_linux ↦ inl (sym (loaded-injective 0 linux t (rw is_linux at e)))
  | inr other ↦
      let e' = rw other at e in
      elim (Bool-cases (bytes_eq s (codes "fat32"))) [
        | inl is_fat ↦ inr (sym (loaded-injective 0 fat32 t (rw is_fat at e')))
        | inr unknown ↦ absurd (never t (rw unknown at e'))
      ]
]
  where
    never : (t : ℕ) → ◌≡◌ {A = Loaded ℕ} refused (loaded t) → ⊥
    never t e = ground arith

len_of-bound : (s : Option (List ℕ)) (n : ℕ) → len_of s ≡ loaded n → n < 2 ^ 32
unfolding len_of
len_of-bound none n e = let same = loaded-injective 0 0 n e in omega arith
len_of-bound (some s) n e =
    let (len, found, e') = bind-loaded (required (parse_len s)) (λ len. loaded (u32 len)) n e in
    let same = loaded-injective 0 (u32 len) n e' in omega arith

-- A partition as the loader leaves it.
pub record IsLoadedPart (p : PartInfo) : Type 0 where
  pub known : IsKnown p
  pub flag : p.flags ≤ 1
  pub len : p.len_kb < 2 ^ 32
  pub unplaced : p.start_lba ≡ 0

module _ (cfg : ConfigUtils) where
  load_partition-IsLoadedPart :
      (node : cfg.Cnode) (p : PartInfo) → load_partition cfg node ≡ loaded p → IsLoadedPart p
  unfolding load_partition
  load_partition-IsLoadedPart node p e =
      let (s, found, e1) = bind-loaded (required (cfg.str node (codes "type"))) _ p e in
      let (type, known, e2) = bind-loaded (type_of s) _ p e1 in
      let (len, small, e3) = bind-loaded (len_of (cfg.str node (codes "len"))) _ p e2 in
      subst IsLoadedPart (loaded-injective p _ p e3) (record {
        known = type_of-known s type known;
        flag = flag_of (cfg.bool node (codes "active"));
        len = len_of-bound (cfg.str node (codes "len")) len small;
        unplaced = refl;
      })
    where
      flag_of : (b : Bool) → (if b then 1 else 0) ≤ 1
      flag_of true = omega arith
      flag_of false = omega arith

  -- As many partitions as the section has nodes, and no more than there is room for.
  load_partitions-All :
      (room : ℕ) (nodes : List cfg.Cnode) (ps : List PartInfo)
      → load_partitions cfg room nodes ≡ loaded ps
      → (length ps ≡ length nodes) × (length nodes ≤ room) × All IsLoadedPart ps
  unfolding load_partitions
  load_partitions-All room [] ps e =
      let same = loaded-injective [] [] ps e in
      (sym (ap length same), omega arith, subst (All IsLoadedPart) same tt)
  load_partitions-All zero (node ∷ nodes) ps e = ground arith
  load_partitions-All (suc room) (node ∷ nodes) ps e =
      let (p, first, e1) = bind-loaded (load_partition cfg node) _ ps e in
      let (qs, rest, e2) = bind-loaded (load_partitions cfg room nodes) _ ps e1 in
      let same = loaded-injective ps (p ∷ qs) ps e2 in
      let (count, fits, all) = load_partitions-All room nodes qs rest in
      (
        omega (arith, ap length same),
        omega arith,
        subst (All IsLoadedPart) same (load_partition-IsLoadedPart node p first, all),
      )

  -- A node of a partition that loads.
  abbrev pub Loads : cfg.Cnode → Type 0
  Loads node = (p : PartInfo) × (load_partition cfg node ≡ loaded p)

  -- Where the first `room` partitions of a section load and the section has more, the next one is
  -- written behind the end of an array of `room` partitions; with `max_num_parts` for `room` this
  -- is what `load_diskconfig` does with more than 16.
  pub load_partitions_overrun :
      (room : ℕ) (nodes : List cfg.Cnode)
      → room < length nodes
      → All Loads (take room nodes)
      → load_partitions cfg room nodes ≡ overrun
  unfolding load_partitions
  load_partitions_overrun room [] more all = absurd (omega arith)
  load_partitions_overrun zero (node ∷ nodes) more all = refl
  load_partitions_overrun (suc room) (node ∷ nodes) more all =
      let (p, first) = all.0 in
      rw (first, load_partitions_overrun room nodes (omega arith) all.1) refl

-- A configuration as the loader leaves it.
pub record IsLoaded (cfg : ConfigUtils) (fn : List ℕ) (dinfo : DiskInfo) : Type 0 where
  pub scheme : dinfo.scheme ≡ part_scheme_mbr
  pub sectors : 0 < dinfo.sect_size
  pub skips : 0 < dinfo.skip_lba
  pub devroot : cfg.Cnode
  pub device : cfg.find (cfg.load_file fn) (codes "device") ≡ some devroot
  pub partnode : cfg.Cnode
  pub section : cfg.find devroot (codes "partitions") ≡ some partnode
  pub count : length dinfo.part_lst ≡ length (cfg.children partnode)
  pub parts : All IsLoadedPart dinfo.part_lst

scheme_of-mbr :
    (cfg : ConfigUtils) (s : List ℕ) (t : ℕ) → scheme_of cfg s ≡ loaded t → t ≡ part_scheme_mbr
unfolding scheme_of
scheme_of-mbr cfg s t e = elim (Bool-cases (bytes_eq s (codes "mbr"))) [
  | inl mbr ↦ sym (loaded-injective 0 part_scheme_mbr t (rw mbr at e))
  | inr other ↦ absurd (never (rw other at e))
]
  where
    never : ◌≡◌ {A = Loaded ℕ} refused (loaded t) → ⊥
    never e = ground arith

load_device-IsLoaded :
    (cfg : ConfigUtils) (fn : List ℕ) (devroot : cfg.Cnode) (path : Option (List ℕ))
    (dinfo : DiskInfo)
    → cfg.find (cfg.load_file fn) (codes "device") ≡ some devroot
    → load_device cfg devroot path ≡ loaded dinfo
    → IsLoaded cfg fn dinfo
unfolding load_device
load_device-IsLoaded cfg fn devroot path dinfo here e =
    let (device, _, e1) = bind-loaded (device_of cfg devroot path) _ dinfo e in
    let (s, _, e2) = bind-loaded (required (cfg.str devroot (codes "scheme"))) _ dinfo e1 in
    let (scheme, mbr, e3) = bind-loaded (scheme_of cfg s) _ dinfo e2 in
    let sect_size =
      u32 (strtol (or_default (cfg.str devroot (codes "sector_size")) (codes "512"))) in
    let (t, sect, e4) = bind-loaded (check (ltb 0 sect_size)) _ dinfo e3 in
    let (start, _, e5) = bind-loaded (required (cfg.str devroot (codes "start_lba"))) _ dinfo e4 in
    let skip_lba = u32 (strtol start) in
    let (t', skip, e6) = bind-loaded (check (ltb 0 skip_lba)) _ dinfo e5 in
    let (num, _, e7) = bind-loaded (required (cfg.str devroot (codes "num_lba"))) _ dinfo e6 in
    let (node, there, e8) =
      bind-loaded (required (cfg.find devroot (codes "partitions"))) _ dinfo e7 in
    let (parts, loads, e9) =
      bind-loaded (load_partitions cfg max_num_parts (cfg.children node)) _ dinfo e8 in
    let (count, fits, all) =
      load_partitions-All cfg max_num_parts (cfg.children node) parts loads in
    subst (IsLoaded cfg fn) (loaded-injective dinfo _ dinfo e9) (record {
      scheme = scheme_of-mbr cfg s scheme mbr;
      sectors = ltb→lt 0 sect_size (check-true _ t sect);
      skips = ltb→lt 0 skip_lba (check-true _ t' skip);
      devroot = devroot;
      device = here;
      partnode = node;
      section = required-some _ node there;
      count = count;
      parts = all;
    })

-- For a configuration file whose section "partitions" has at most 16 nodes (with more,
-- `load_diskconfig` writes behind the array of partitions), `load_diskconfig` stays inside the array,
-- and a configuration that it returns has the scheme MBR, a block size and a first block that are
-- not 0, and as many partitions as the section has nodes, each of type Linux or FAT32, with no flag
-- but the active one, a length of 32 bits, and no place yet.
pub load_diskconfig-IsLoaded :
    (cfg : ConfigUtils) (fn : List ℕ) (path : Option (List ℕ))
    → ((devroot : cfg.Cnode)
        → cfg.find (cfg.load_file fn) (codes "device") ≡ some devroot
        → HasRoom cfg devroot)
    → (load_diskconfig cfg fn path ≢ overrun)
      × ((dinfo : DiskInfo) → load_diskconfig cfg fn path ≡ loaded dinfo → IsLoaded cfg fn dinfo)
unfolding load_diskconfig
load_diskconfig-IsLoaded cfg fn path room = (
  load_diskconfig-Inside cfg fn path room,
  λ dinfo e.
      let (first, _, e1) =
        bind-loaded (required (first_of (cfg.children (cfg.load_file fn)))) _ dinfo e in
      let (devroot, here, e2) =
        bind-loaded (required (cfg.find (cfg.load_file fn) (codes "device"))) _ dinfo e1 in
      load_device-IsLoaded cfg fn devroot path dinfo (required-some _ devroot here) e2,
)
