-- ===== src/Mbr/Load/Room.antt =====
-- Where editdisklbl/diskconfig.c `load_diskconfig` stays inside the array of partitions.
use platform_bootable_iago.Base.{
  ℕ, zero, suc, ◌≤◌, ◌≡◌, ◌≢◌, refl, ap, arith, Bool, true, false, List, [], ◌∷◌, Option, none,
  some, if◌then◌else◌, ltb, length, bytes_eq, codes, u32,
}
use platform_bootable_iago.Mbr.Length.{parse_len}
use platform_bootable_iago.Mbr.Load.{
  ConfigUtils, Loaded, loaded, refused, overrun, ◌>>=◌, required, check, or_default, type_of,
  len_of, load_partition, load_partitions, scheme_of, load_device, load_diskconfig, max_num_parts,
  strtol, device_of, first_of,
}

-- What was loaded; `d` where nothing was.
abbrev pub loaded_or {ℓ} : {A : Type ℓ} → A → Loaded A → A
loaded_or d (loaded x) = x
loaded_or d refused = d
loaded_or d overrun = d

pub loaded-injective {ℓ} : {A : Type ℓ} (d a b : A) → loaded a ≡ loaded b → a ≡ b
loaded-injective d a b e = ap (loaded_or d) e

pub required-some {ℓ} : {A : Type ℓ} (r : Option A) (a : A) → required r ≡ loaded a → r ≡ some a
required-some none a e = ground arith
required-some (some x) a e = ap some (loaded-injective x x a e)

-- A step that writes nothing behind the array.
abbrev pub Inside {ℓ} : {A : Type ℓ} → Loaded A → Type ℓ
Inside m = m ≢ overrun

module _ {A : Type 0} where
  loaded-Inside : (a : A) → Inside (loaded a)
  loaded-Inside a e = ground arith

  refused-Inside : ◌≢◌ {A = Loaded A} refused overrun
  refused-Inside e = ground arith

  required-Inside : (r : Option A) → Inside (required r)
  required-Inside none = refused-Inside
  required-Inside (some a) = loaded-Inside a

  -- A step whose rest stays inside for what it gave.
  bind-Inside :
      {B : Type 0} (m : Loaded A) (f : A → Loaded B)
      → Inside m
      → ((a : A) → m ≡ loaded a → Inside (f a))
      → Inside (m >>= f)
  bind-Inside (loaded a) f h k = k a refl
  bind-Inside refused f h k = λ e. ground arith
  bind-Inside overrun f h k = absurd (h refl)

check-Inside : (b : Bool) → Inside (check b)
check-Inside true = loaded-Inside true
check-Inside false = refused-Inside

if-Inside : (b : Bool) (m n : Loaded ℕ) → Inside m → Inside n → Inside (if b then m else n)
if-Inside true m n hm hn = hm
if-Inside false m n hm hn = hn

type_of-Inside : (s : List ℕ) → Inside (type_of s)
unfolding type_of
type_of-Inside s =
    if-Inside (bytes_eq s (codes "linux")) _ _ (loaded-Inside _)
      (if-Inside (bytes_eq s (codes "fat32")) _ _ (loaded-Inside _) refused-Inside)

len_of-Inside : (s : Option (List ℕ)) → Inside (len_of s)
unfolding len_of
len_of-Inside none = loaded-Inside 0
len_of-Inside (some s) =
    bind-Inside (required (parse_len s)) _ (required-Inside (parse_len s))
      (λ len e. loaded-Inside _)

module _ (cfg : ConfigUtils) where
  load_partition-Inside : (node : cfg.Cnode) → Inside (load_partition cfg node)
  unfolding load_partition
  load_partition-Inside node =
      bind-Inside (required (cfg.str node (codes "type"))) _ (required-Inside _) λ s e.
        bind-Inside (type_of s) _ (type_of-Inside s) λ type e'.
          bind-Inside (len_of (cfg.str node (codes "len"))) _ (len_of-Inside _)
            λ len e''. loaded-Inside _

  load_partitions-Inside :
      (room : ℕ) (nodes : List cfg.Cnode)
      → length nodes ≤ room
      → Inside (load_partitions cfg room nodes)
  unfolding load_partitions
  load_partitions-Inside room [] fits = loaded-Inside []
  load_partitions-Inside zero (node ∷ nodes) fits = absurd (omega arith)
  load_partitions-Inside (suc room) (node ∷ nodes) fits =
      bind-Inside (load_partition cfg node) _ (load_partition-Inside node) λ p e.
        bind-Inside (load_partitions cfg room nodes) _
          (load_partitions-Inside room nodes (omega arith)) λ ps e'. loaded-Inside _

  device_of-Inside :
      (path : Option (List ℕ)) (devroot : cfg.Cnode) → Inside (device_of cfg devroot path)
  unfolding device_of
  device_of-Inside path devroot = go (cfg.str devroot (codes "path"))
    where
      go :
          (r : Option (List ℕ))
          → Inside (elim r as (λ x. Loaded (List ℕ)) [ some p ↦ loaded p | none ↦ required path ])
      go none = required-Inside path
      go (some p) = loaded-Inside p

  scheme_of-Inside : (s : List ℕ) → Inside (scheme_of cfg s)
  unfolding scheme_of
  scheme_of-Inside s = if-Inside (bytes_eq s (codes "mbr")) _ _ (loaded-Inside _) refused-Inside

  -- The section "partitions" of a device, where it has one, has no more nodes than the array has
  -- room for.
  abbrev pub HasRoom : cfg.Cnode → Type 0
  HasRoom devroot =
      (partnode : cfg.Cnode)
      → cfg.find devroot (codes "partitions") ≡ some partnode
      → length (cfg.children partnode) ≤ max_num_parts

  abbrev sect_size_of : cfg.Cnode → ℕ
  sect_size_of devroot =
      u32 (strtol (or_default (cfg.str devroot (codes "sector_size")) (codes "512")))

  load_device-Inside :
      (devroot : cfg.Cnode) (path : Option (List ℕ))
      → HasRoom devroot
      → Inside (load_device cfg devroot path)
  unfolding load_device
  load_device-Inside devroot path room =
      bind-Inside (device_of cfg devroot path) _ (device_of-Inside path devroot) λ device e1.
        bind-Inside (required (cfg.str devroot (codes "scheme"))) _ (required-Inside _) λ s e2.
          bind-Inside (scheme_of cfg s) _ (scheme_of-Inside s) λ scheme e3.
            bind-Inside (check (ltb 0 (sect_size_of devroot))) _
              (check-Inside (ltb 0 (sect_size_of devroot)))
              λ t e4.
                bind-Inside (required (cfg.str devroot (codes "start_lba"))) _ (required-Inside _)
                  λ start e5.
                    bind-Inside (check (ltb 0 (u32 (strtol start)))) _
                      (check-Inside (ltb 0 (u32 (strtol start))))
                      λ t' e6.
                        bind-Inside (required (cfg.str devroot (codes "num_lba"))) _
                          (required-Inside _)
                          λ num e7.
                            bind-Inside (required (cfg.find devroot (codes "partitions"))) _
                              (required-Inside _)
                              λ node e8.
                                bind-Inside (load_partitions cfg max_num_parts (cfg.children node))
                                  _
                                  (load_partitions-Inside max_num_parts (cfg.children node)
                                    (room node (required-some _ node e8)))
                                  λ parts e9. loaded-Inside _

  pub load_diskconfig-Inside :
      (fn : List ℕ) (path : Option (List ℕ))
      → ((devroot : cfg.Cnode)
          → cfg.find (cfg.load_file fn) (codes "device") ≡ some devroot
          → HasRoom devroot)
      → Inside (load_diskconfig cfg fn path)
  unfolding load_diskconfig
  load_diskconfig-Inside fn path room =
      bind-Inside (required (first_of (cfg.children (cfg.load_file fn)))) _ (required-Inside _)
        λ first e.
          bind-Inside (required (cfg.find (cfg.load_file fn) (codes "device"))) _
            (required-Inside _)
            λ devroot e'.
              load_device-Inside devroot path (room devroot (required-some _ devroot e'))
