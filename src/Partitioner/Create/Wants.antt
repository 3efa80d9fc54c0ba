-- ===== src/Partitioner/Create/Wants.antt =====
-- What the options must say for installer/partitioner.c `mkpart_cb` to make a partition.
use platform_bootable_iago.Base.{
  ℕ, ◌+◌, ◌-◌, ◌^◌, ◌≤◌, ◌<◌, ◌≡◌, inl, inr, refl, ap, ap₂, ◌∙◌, arith, List, [], ◌∷◌, All, Option,
  none, some, false, ◌&&◌, ◌==◌, le→ltb, if◌then◌else◌, length, bytes_eq, Bool-cases, u64,
}
use mathlib.Core.Option.{some-injective, none-ne-some}
use platform_bootable_iago.Gpt.Guid.{PartType}
use platform_bootable_iago.Gpt.Name.Laws.{IsChar}
use platform_bootable_iago.Options.{Hashmap, get_or_die, string_list_iterate, entries_of, xatoll}
use platform_bootable_iago.Options.Laws.{iterate-keeps}
use platform_bootable_iago.Partitioner.Android.{bootloader}
use platform_bootable_iago.Partitioner.Create.{
  Session, make_partition, mkpart_cb, partition_key, len_field, flags_field, type_field, ext4,
  flag_mask, set_flag, clear_flag, flags_cb, string_to_type, is_negative, ◌>>=◌,
}
use platform_bootable_iago.Partitioner.Create.Keys.{
  IsRead, len_field-IsRead, flags_field-IsRead, type_field-IsRead,
}
use platform_bootable_iago.Partitioner.Create.Step.{Made}

-- `flags_cb` keeps the flags a 64-bit number.
set_wide :
    (m : Option ℕ) (flags flags' : ℕ) → (m >>= set_flag flags) ≡ some flags' → flags' < 2 ^ 64
set_wide none flags flags' e = absurd (none-ne-some flags' e)
set_wide (some mask) flags flags' e = let same = some-injective _ flags' e in omega arith

clear_wide :
    (m : Option ℕ) (flags flags' : ℕ) → (m >>= clear_flag flags) ≡ some flags' → flags' < 2 ^ 64
clear_wide none flags flags' e = absurd (none-ne-some flags' e)
clear_wide (some mask) flags flags' e = let same = some-injective _ flags' e in omega arith

flags_cb-wide :
    (flag : List ℕ) (flags flags' : ℕ)
    → flags_cb flag flags ≡ some flags'
    → flags < 2 ^ 64
    → flags' < 2 ^ 64
unfolding flags_cb
flags_cb-wide [] flags flags' e h = absurd (none-ne-some flags' e)
flags_cb-wide (c ∷ cs) flags flags' e h = elim (Bool-cases (c == b'!')) [
  | inl not_flag ↦ clear_wide (flag_mask cs) flags flags' (rw not_flag at e)
  | inr plain ↦ set_wide (flag_mask (c ∷ cs)) flags flags' (rw plain at e)
]

-- What a partition list must say of an entry for a partition of `mb` MiB to be made.
pub record Wants (hm : Hashmap) (s : Session hm) (entry : List ℕ) (mb : ℕ) : Type 0 where
  pub not_skipped : (s.mc.skip_bootloader && bytes_eq entry bootloader) ≡ false
  pub short : length entry ≤ 27
  pub chars : All IsChar entry
  pub flags_list : List ℕ
  pub ptype : List ℕ
  pub len : List ℕ
  pub flags : ℕ
  pub part_mb : ℕ
  pub type : PartType
  pub flags_opt : get_or_die hm (some []) (partition_key entry flags_field) s.opts ≡ some flags_list
  pub type_opt : get_or_die hm (some ext4) (partition_key entry type_field) s.opts ≡ some ptype
  pub len_opt : get_or_die hm none (partition_key entry len_field) s.opts ≡ some len
  pub flags_ok : string_list_iterate flags_list flags_cb 0 ≡ some flags
  pub len_ok : xatoll len ≡ some part_mb
  pub type_ok : string_to_type ptype ≡ some type
  pub size :
      (if is_negative part_mb then u64 (s.mc.disk_mb + 2 ^ 64 - s.mc.ptn_mb) else part_mb) ≡ mb
  pub some_mb : 1 ≤ mb

module _ (hm : Hashmap) where
  pub wide : {s : Session hm} {entry : List ℕ} {mb : ℕ} (w : Wants hm s entry mb) → w.flags < 2 ^ 64
  unfolding string_list_iterate
  wide w =
      iterate-keeps (λ f. f < 2 ^ 64) flags_cb flags_cb-wide (entries_of w.flags_list) 0 w.flags
        w.flags_ok (omega arith)

  -- With its options in place, `mkpart_cb` goes on to make the partition.
  pub mkpart_cb-eq :
      (s : Session hm) (entry : List ℕ) (mb : ℕ) (w : Wants hm s entry mb)
      → mkpart_cb hm entry s ≡ make_partition hm entry w.type w.flags mb s
  unfolding mkpart_cb
  mkpart_cb-eq s entry mb w =
      rw
        (
          w.not_skipped,
          w.flags_opt,
          w.type_opt,
          w.flags_ok,
          le→ltb 27 (length entry) w.short,
          w.len_opt,
          w.len_ok,
          w.type_ok,
          w.size,
        )
        refl

  get_or_die-same :
      (dfl : Option (List ℕ)) (k : List ℕ) (m m' : hm.Map)
      → hm.get k m' ≡ hm.get k m
      → get_or_die hm dfl k m' ≡ get_or_die hm dfl k m
  unfolding get_or_die
  get_or_die-same dfl k m m' e =
      ap (λ r. elim r as (λ x. Option (List ℕ)) [ some v ↦ some v | none ↦ dfl ]) e

  -- Making one partition does not change what the others are to be.
  pub Made-Wants :
      {entry other : List ℕ} {type : PartType} {flags part_mb start_lba end_lba mb : ℕ}
      {s s' : Session hm} {random : List ℕ}
      → Made hm entry type flags part_mb start_lba end_lba s random s'
      → Wants hm s other mb
      → Wants hm s' other mb
  Made-Wants {entry} {other} {s = s} {s' = s'} m w = record {
    not_skipped = ap (λ b. b && bytes_eq other bootloader) m.context.2 ∙ w.not_skipped;
    short = w.short;
    chars = w.chars;
    flags_list = w.flags_list;
    ptype = w.ptype;
    len = w.len;
    flags = w.flags;
    part_mb = w.part_mb;
    type = w.type;
    flags_opt =
        same (some []) (partition_key other flags_field) (flags_field-IsRead other) ∙ w.flags_opt;
    type_opt =
        same (some ext4) (partition_key other type_field) (type_field-IsRead other) ∙ w.type_opt;
    len_opt = same none (partition_key other len_field) (len_field-IsRead other) ∙ w.len_opt;
    flags_ok = w.flags_ok;
    len_ok = w.len_ok;
    type_ok = w.type_ok;
    size =
        ap₂ (λ d p. if is_negative w.part_mb then u64 (d + 2 ^ 64 - p) else w.part_mb) m.context.1
          m.context.0
        ∙ w.size;
    some_mb = w.some_mb;
  }
    where
      same :
          (dfl : Option (List ℕ)) (k : List ℕ)
          → IsRead k
          → get_or_die hm dfl k s'.opts ≡ get_or_die hm dfl k s.opts
      same dfl k (not_device, not_index) =
          get_or_die-same dfl k s.opts s'.opts (m.opts k (not_device entry) (not_index entry))
