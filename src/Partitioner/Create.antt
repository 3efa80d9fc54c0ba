-- ===== src/Partitioner/Create.antt =====
-- How installer/partitioner.c creates the Android partitions: `sumsizes_cb`,
-- `get_partial_space_required`, `flags_cb`, `string_to_type`, `mkpart_cb`,
-- `create_android_partitions`. `none` is the end of the program by `die`.
pub mod Skip
pub mod Step
pub mod Keys
pub mod Wants
pub mod Layout
pub mod Whole
use platform_bootable_iago.Base.{
  ℕ, ◌+◌, ◌-◌, ◌*◌, ◌^◌, Bool, true, false, ◌&&◌, ◌||◌, List, [], ◌∷◌, ◌++◌, Option, none, some,
  ltb, leb, ◌==◌, if◌then◌else◌, take, length, bytes_eq, bit_and, bit_or, u64,
}
use platform_bootable_iago.Gpt.Guid.{
  PartType, part_linux, part_android_boot, part_android_recovery, part_android_tertiary,
  part_android_misc, part_android_metadata, part_ms_data, part_esp, part_linux_swap,
}
use platform_bootable_iago.Gpt.Name.{decimal, gpt_get_device_node}
use platform_bootable_iago.Gpt.Table.{Gpt}
use platform_bootable_iago.Gpt.Edit.{gpt_entry_create}
use platform_bootable_iago.Gpt.FreeSpace.{gpt_find_contiguous_free_space}
use platform_bootable_iago.Options.{Hashmap, get_or_die, string_list_iterate, xatoll}
use platform_bootable_iago.Partitioner.Sizes.{to_mib, to_mib_floor, mib_to_lba}
use platform_bootable_iago.Partitioner.Android.{name_magic, bootloader}

-- `MIN_DATA_PART_SIZE`
abbrev pub min_data_part_size : ℕ
min_data_part_size = 350

infixl 5 ◌>>=◌
abbrev pub ◌>>=◌ {ℓ κ} : {A : Type ℓ} {B : Type κ} → Option A → (A → Option B) → Option B
◌>>=◌ none f = none
◌>>=◌ (some a) f = f a

-- "partition." with the name of an entry
abbrev pub partition_key : List ℕ → List ℕ → List ℕ
partition_key entry field =
    b'p' ∷ b'a' ∷ b'r' ∷ b't' ∷ b'i' ∷ b't' ∷ b'i' ∷ b'o' ∷ b'n' ∷ b'.' ∷ (entry ++ field)

-- ":len", ":flags", ":type", ":index", ":device"
abbrev pub len_field : List ℕ
len_field = b':' ∷ b'l' ∷ b'e' ∷ b'n' ∷ []

abbrev pub flags_field : List ℕ
flags_field = b':' ∷ b'f' ∷ b'l' ∷ b'a' ∷ b'g' ∷ b's' ∷ []

abbrev pub type_field : List ℕ
type_field = b':' ∷ b't' ∷ b'y' ∷ b'p' ∷ b'e' ∷ []

abbrev pub index_field : List ℕ
index_field = b':' ∷ b'i' ∷ b'n' ∷ b'd' ∷ b'e' ∷ b'x' ∷ []

abbrev pub device_field : List ℕ
device_field = b':' ∷ b'd' ∷ b'e' ∷ b'v' ∷ b'i' ∷ b'c' ∷ b'e' ∷ []

-- "ext4"
abbrev pub ext4 : List ℕ
ext4 = b'e' ∷ b'x' ∷ b't' ∷ b'4' ∷ []

-- "base:partitions"
abbrev pub base_ptn_list : List ℕ
base_ptn_list =
    b'b' ∷ b'a' ∷ b's' ∷ b'e' ∷ b':' ∷ b'p' ∷ b'a' ∷ b'r' ∷ b't' ∷ b'i' ∷ b't' ∷ b'i' ∷ b'o' ∷ b'n'
    ∷ b's' ∷ []

-- "bootloader2"
abbrev pub bootloader2 : List ℕ
bootloader2 = bootloader ++ (b'2' ∷ [])

-- The mask of a partition flag: "system", "boot", "ro", "hidden", "noauto".
unfoldable pub flag_mask : List ℕ → Option ℕ
flag_mask flag =
    if bytes_eq flag (b's' ∷ b'y' ∷ b's' ∷ b't' ∷ b'e' ∷ b'm' ∷ [])
    then some (2 ^ 0)
    else if bytes_eq flag (b'b' ∷ b'o' ∷ b'o' ∷ b't' ∷ [])
    then some (2 ^ 2)
    else if bytes_eq flag (b'r' ∷ b'o' ∷ [])
    then some (2 ^ 60)
    else if bytes_eq flag (b'h' ∷ b'i' ∷ b'd' ∷ b'd' ∷ b'e' ∷ b'n' ∷ [])
    then some (2 ^ 62)
    else if bytes_eq flag (b'n' ∷ b'o' ∷ b'a' ∷ b'u' ∷ b't' ∷ b'o' ∷ [])
    then some (2 ^ 63)
    else none

abbrev pub set_flag : ℕ → ℕ → Option ℕ
set_flag flags mask = some (u64 (bit_or flags mask))

abbrev pub clear_flag : ℕ → ℕ → Option ℕ
clear_flag flags mask = some (u64 (bit_and flags (2 ^ 64 - 1 - mask)))

-- A leading `!` clears the flag.
unfoldable pub flags_cb : List ℕ → ℕ → Option ℕ
unfolding flag_mask
flags_cb [] flags = none
flags_cb (c ∷ cs) flags =
    if c == b'!'
    then (flag_mask cs >>= clear_flag flags)
    else (flag_mask (c ∷ cs) >>= set_flag flags)

unfoldable pub string_to_type : List ℕ → Option PartType
string_to_type type =
    if bytes_eq type (b'e' ∷ b's' ∷ b'p' ∷ [])
    then some part_esp
    else if bytes_eq type (b'b' ∷ b'o' ∷ b'o' ∷ b't' ∷ [])
    then some part_android_boot
    else if bytes_eq type (b'r' ∷ b'e' ∷ b'c' ∷ b'o' ∷ b'v' ∷ b'e' ∷ b'r' ∷ b'y' ∷ [])
    then some part_android_recovery
    else if bytes_eq type (b't' ∷ b'e' ∷ b'r' ∷ b't' ∷ b'i' ∷ b'a' ∷ b'r' ∷ b'y' ∷ [])
    then some part_android_tertiary
    else if bytes_eq type (b'm' ∷ b'i' ∷ b's' ∷ b'c' ∷ [])
    then some part_android_misc
    else if bytes_eq type (b'm' ∷ b'e' ∷ b't' ∷ b'a' ∷ b'd' ∷ b'a' ∷ b't' ∷ b'a' ∷ [])
    then some part_android_metadata
    else if bytes_eq type ext4
    then some part_linux
    else if bytes_eq type (b'v' ∷ b'f' ∷ b'a' ∷ b't' ∷ [])
    then some part_ms_data
    else if bytes_eq type (b's' ∷ b'w' ∷ b'a' ∷ b'p' ∷ [])
    then some part_linux_swap
    else none

-- `struct mkpart_ctx`.
pub record MkpartCtx : Type 0 where
  pub gpt : Gpt
  pub ptn_index : ℕ
  pub next_mb : ℕ
  pub ptn_mb : ℕ
  pub disk_mb : ℕ
  pub skip_bootloader : Bool

-- A signed 64-bit number that is negative.
abbrev pub is_negative : ℕ → Bool
is_negative n = leb (2 ^ 63) n

module _ (hm : Hashmap) where
  -- What `mkpart_cb` works on: the options, the reads of /dev/urandom to come, and its context.
  pub record Session : Type 0 where
    pub opts : hm.Map
    pub entropy : List (Option (List ℕ))
    pub mc : MkpartCtx

  -- The next read of /dev/urandom; it fails behind the last one.
  abbrev pub next_random : List (Option (List ℕ)) → Option (List ℕ)
  next_random [] = none
  next_random (r ∷ rs) = r

  abbrev pub more_random : List (Option (List ℕ)) → List (Option (List ℕ))
  more_random [] = []
  more_random (r ∷ rs) = rs

  unfoldable pub sumsizes_cb : hm.Map → List ℕ → ℕ → Option ℕ
  sumsizes_cb opts entry total = if bytes_eq (take 10 entry) bootloader then some total else (do
    str ← get_or_die hm none (partition_key entry len_field) opts
    len ← xatoll str
    if is_negative len || (len == 0) then some total else some (u64 (total + len * 2 ^ 20)))

  unfoldable pub get_partial_space_required : hm.Map → ℕ → Option ℕ
  unfolding sumsizes_cb
  get_partial_space_required opts esp_sizes = do
    partlist ← get_or_die hm none base_ptn_list opts
    total ← string_list_iterate partlist (sumsizes_cb opts) 0
    some (u64 (total + esp_sizes))

  -- The partition that `mkpart_cb` makes once its options are read.
  unfoldable pub make_partition : List ℕ → PartType → ℕ → ℕ → Session → Option Session
  make_partition entry type flags part_mb s =
      let mc = s.mc in
      let end_mb = u64 (mc.next_mb + part_mb) in
      let (index, gpt) =
        gpt_entry_create mc.gpt (name_magic ++ entry) type flags (mib_to_lba mc.gpt mc.next_mb)
          (u64 (mib_to_lba mc.gpt end_mb + 2 ^ 64 - 1)) (next_random s.entropy) in
      if index == 0
      then none
      else some (record {
        opts =
            hm.put (partition_key entry device_field) (gpt_get_device_node index gpt)
              (hm.put (partition_key entry index_field) (decimal index) s.opts);
        entropy = more_random s.entropy;
        mc = record mc { gpt = gpt; ptn_index = index; next_mb = end_mb };
      })

  unfoldable pub mkpart_cb : List ℕ → Session → Option Session
  unfolding make_partition flags_cb string_to_type
  mkpart_cb entry s = if s.mc.skip_bootloader && bytes_eq entry bootloader then some s else (do
    flags_list ← get_or_die hm (some []) (partition_key entry flags_field) s.opts
    ptype ← get_or_die hm (some ext4) (partition_key entry type_field) s.opts
    flags ← string_list_iterate flags_list flags_cb 0
    len ←
        (if ltb 27 (length entry)
          then none
          else get_or_die hm none (partition_key entry len_field) s.opts)
    part_mb ← xatoll len
    type ← string_to_type ptype
    make_partition entry type flags
        (if is_negative part_mb then u64 (s.mc.disk_mb + 2 ^ 64 - s.mc.ptn_mb) else part_mb) s)

  -- The options and the table with the Android partitions in its largest free range.
  unfoldable pub create_android_partitions :
      ℕ → List ℕ → Gpt → Bool → hm.Map → List (Option (List ℕ)) → Option Session
  unfolding get_partial_space_required mkpart_cb
  create_android_partitions bootloader_size partlist gpt skip opts entropy = do
    required ← get_partial_space_required opts bootloader_size
    (start_lba, end_lba) ← gpt_find_contiguous_free_space gpt
    let start_mb = to_mib (u64 (start_lba * gpt.lba_size))
    let end_mb = to_mib_floor (u64 (u64 (end_lba + 1) * gpt.lba_size))
    let available = u64 (end_mb + 2 ^ 64 - start_mb)
    if ltb available (u64 (to_mib required + min_data_part_size)) then none else (do
      len ← get_or_die hm none (partition_key bootloader len_field) opts
      string_list_iterate partlist mkpart_cb (record {
        opts = hm.put (partition_key bootloader2 len_field) len opts;
        entropy = entropy;
        mc = record {
          gpt = gpt;
          ptn_index = 0;
          next_mb = start_mb;
          ptn_mb = to_mib required;
          disk_mb = available;
          skip_bootloader = skip;
        };
      }))
