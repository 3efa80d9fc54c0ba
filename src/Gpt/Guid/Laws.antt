-- ===== src/Gpt/Guid/Laws.antt =====
-- The byte layout of `struct guid`, the partition type GUIDs and version 4 UUIDs.
use platform_bootable_iago.Base.{
  ℕ, suc, ◌+◌, ◌/◌, ◌<◌, ◌≡◌, refl, ap, ◌∙◌, arith, List, ◌++◌, ◌∷◌, [], length, drop, take-append,
  of_le-le_bytes, le_bytes, All, IsByte, bit_or, ◌%◌, get_or, and_0x3f, and_0xfff, or_0x80,
  or_0x4000, some, bytes_eq_sound, bytes_eq_refl, true, ◌==◌, if◌then◌else◌, sym, ◌≤◌, All-append,
  le_bytes-IsByte, of_le-slice-lt, length-take, length-drop, All-take, All-drop,
}
use mathlib.Core.Logic.{◌↔◌}
use mathlib.Core.Path.{subst}
use platform_bootable_iago.Gpt.Guid.{
  Guid, IsGuid, encode_guid, decode_guid, stamp_uuid, generate_uuid, guid_eq, PartType,
  get_guid_type, part_linux, part_linux_swap, part_ms_data, part_esp, part_ms_reserved,
  part_android_boot, part_android_misc, part_android_recovery, part_android_tertiary,
  part_android_metadata,
}

pub length-encode_guid : (g : Guid) → length g.data4 ≡ 8 → length (encode_guid g) ≡ 16
unfolding encode_guid
length-encode_guid g h = omega arith

-- A GUID is read back from its bytes, whatever follows them.
pub decode_guid-encode_guid :
    (g : Guid) (rest : List ℕ) → IsGuid g → decode_guid (encode_guid g ++ rest) ≡ g
unfolding encode_guid decode_guid
decode_guid-encode_guid g rest v = λ i. record {
  data1 = of_le-le_bytes 4 g.data1 v.wide1 i;
  data2 = of_le-le_bytes 2 g.data2 v.wide2 i;
  data3 = of_le-le_bytes 2 g.data3 v.wide3 i;
  data4 = take-append 8 g.data4 rest v.eight i;
}

pub encode_guid-IsByte : (g : Guid) → IsGuid g → All IsByte (encode_guid g)
unfolding encode_guid
encode_guid-IsByte g v =
    All-append IsByte (le_bytes 4 g.data1) (le_bytes 2 g.data2 ++ (le_bytes 2 g.data3 ++ g.data4))
      (le_bytes-IsByte 4 g.data1)
      (All-append IsByte (le_bytes 2 g.data2) (le_bytes 2 g.data3 ++ g.data4)
        (le_bytes-IsByte 2 g.data2)
        (All-append IsByte (le_bytes 2 g.data3) g.data4 (le_bytes-IsByte 2 g.data3) v.bytes))

-- Any 16 bytes are a GUID.
pub decode_guid-IsGuid : (bs : List ℕ) → 16 ≤ length bs → All IsByte bs → IsGuid (decode_guid bs)
unfolding decode_guid
decode_guid-IsGuid bs long h = record {
  wide1 = of_le-slice-lt 0 4 bs (omega arith) h;
  wide2 = of_le-slice-lt 4 2 bs (omega arith) h;
  wide3 = of_le-slice-lt 6 2 bs (omega arith) h;
  eight = omega (arith, length-take 8 (drop 8 bs), length-drop 8 bs);
  bytes = All-take IsByte 8 _ (All-drop IsByte 8 bs h);
}

-- The fields of a version 4 UUID: `stamp_uuid` keeps all other bits.
pub stamp_uuid_fields :
    (g : Guid)
    → IsGuid g
    → ((stamp_uuid g).data3 ≡ 0x4000 + g.data3 % 4096)
      × ((stamp_uuid g).data4 ≡ (128 + get_or g.data4 0 0 % 64) ∷ drop 1 g.data4)
unfolding stamp_uuid
stamp_uuid_fields g v = (
  omega (
    arith,
    and_0xfff g.data3 v.wide3,
    ap (λ x. bit_or x 0x4000) (and_0xfff g.data3 v.wide3),
    or_0x4000 (g.data3 % 4096) (omega arith),
  ),
  ap (λ b. b ∷ drop 1 g.data4)
      (omega (
        arith,
        ap (λ x. bit_or x 0x80) (and_0x3f (get_or g.data4 0 0) (first_byte g.data4 v.bytes)),
        or_0x80 (get_or g.data4 0 0 % 64) (omega arith),
      )),
)
  where
    first_byte : (bs : List ℕ) → All IsByte bs → get_or bs 0 0 < 256
    first_byte [] h = omega arith
    first_byte (b ∷ bs) h = h.0

-- What `generate_uuid` makes of 16 random bytes: a GUID whose version is 4 and whose variant bits
-- are 10, and whose other bits are the random ones.
pub record IsUuid (random : List ℕ) (u : Guid) : Type 0 where
  pub guid : IsGuid u
  pub version : u.data3 / 4096 ≡ 4
  pub variant : get_or u.data4 0 0 / 64 ≡ 2
  pub time_bits : u.data3 % 4096 ≡ (decode_guid random).data3 % 4096
  pub clock_bits : get_or u.data4 0 0 % 64 ≡ get_or (decode_guid random).data4 0 0 % 64
  pub others :
      (u.data1 ≡ (decode_guid random).data1)
      × (u.data2 ≡ (decode_guid random).data2)
      × (drop 1 u.data4 ≡ drop 1 (decode_guid random).data4)

-- On 16 random bytes `generate_uuid` gives a GUID of version 4 and variant 10 whose other bits are
-- the random ones.
pub generate_uuid-IsUuid :
    (random : List ℕ)
    → length random ≡ 16
    → All IsByte random
    → (u : Guid) × (generate_uuid (some random) ≡ some u) × IsUuid random u
unfolding generate_uuid stamp_uuid
generate_uuid-IsUuid random long h = (
  stamp_uuid raw,
  refl,
  record {
    guid = record {
      wide1 = v.wide1;
      wide2 = v.wide2;
      wide3 = omega (arith, fields.0);
      eight = tail_len raw.data4 v.eight;
      bytes = subst (All IsByte) (sym fields.1) (omega arith, All-drop IsByte 1 raw.data4 v.bytes);
    };
    version = omega (arith, fields.0);
    variant = omega (arith, first);
    time_bits = omega (arith, fields.0);
    clock_bits = omega (arith, first);
    others = (refl, refl, refl);
  },
)
  where
    raw : Guid
    raw = decode_guid random

    v : IsGuid raw
    v = decode_guid-IsGuid random (omega arith) h

    fields :
        ((stamp_uuid raw).data3 ≡ 0x4000 + raw.data3 % 4096)
        × ((stamp_uuid raw).data4 ≡ (128 + get_or raw.data4 0 0 % 64) ∷ drop 1 raw.data4)
    fields = stamp_uuid_fields raw v

    first : get_or (stamp_uuid raw).data4 0 0 ≡ 128 + get_or raw.data4 0 0 % 64
    first = ap (λ bs. get_or bs 0 0) fields.1

    tail_len : (bs : List ℕ) → length bs ≡ 8 → suc (length (drop 1 bs)) ≡ 8
    tail_len [] e = absurd (omega arith)
    tail_len (b ∷ bs) e = e

pub get_guid_type-IsGuid : (t : PartType) → IsGuid (get_guid_type t)
unfolding get_guid_type
get_guid_type-IsGuid part_linux = omega arith
get_guid_type-IsGuid _ = omega arith

-- The partition type that a GUID stands for can be told from its first field alone.
type_of : ℕ → PartType
type_of d =
    if d == 0x0FC63DAF
    then part_linux
    else if d == 0x0657FD6D
    then part_linux_swap
    else if d == 0xEBD0A0A2
    then part_ms_data
    else if d == 0xC12A7328
    then part_esp
    else if d == 0xE3C9E316
    then part_ms_reserved
    else if d == 0x49a4d17f
    then part_android_boot
    else if d == 0xef32a33b
    then part_android_misc
    else if d == 0x4177c722
    then part_android_recovery
    else if d == 0x767941d0
    then part_android_tertiary
    else part_android_metadata

type_of-get_guid_type : (t : PartType) → type_of (get_guid_type t).data1 ≡ t
unfolding type_of get_guid_type
type_of-get_guid_type part_linux = refl
type_of-get_guid_type _ = refl

-- `guidcmp` finds two partition type GUIDs equal exactly when they are of the same type.
pub get_guid_type-eq_iff :
    (t u : PartType) → (guid_eq (get_guid_type t) (get_guid_type u) ≡ true) ↔ (t ≡ u)
unfolding guid_eq
get_guid_type-eq_iff t u = (
  λ h.
      sym (type_of-get_guid_type t)
      ∙ ap (λ g. type_of g.data1) (encode_guid_inj (bytes_eq_sound _ _ h))
      ∙ type_of-get_guid_type u,
  λ e. rw e (bytes_eq_refl (encode_guid (get_guid_type u))),
)
  where
    encode_guid_inj :
        encode_guid (get_guid_type t) ≡ encode_guid (get_guid_type u)
        → get_guid_type t ≡ get_guid_type u
    encode_guid_inj e = sym (back t) ∙ ap (λ bs. decode_guid (bs ++ [])) e ∙ back u
      where
        back : (t : PartType) → decode_guid (encode_guid (get_guid_type t) ++ []) ≡ get_guid_type t
        back t = decode_guid-encode_guid (get_guid_type t) [] (get_guid_type-IsGuid t)
