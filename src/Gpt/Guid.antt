-- ===== src/Gpt/Guid.antt =====
-- GUIDs of include/gpt/gpt.h, the partition types, and libgpt/gpt.c `generate_uuid`, `guidcmp`.
pub mod Laws
pub mod Text
use platform_bootable_iago.Base.{
  ℕ, ◌+◌, ◌*◌, ◌/◌, ◌%◌, ◌^◌, ◌<◌, ◌≡◌, Bool, List, [], ◌∷◌, ◌++◌, bit_and, bit_or, Option, none,
  some, length, take, drop, slice, All, get_or, le_bytes, of_le, IsByte, bytes_eq,
}

-- `struct guid`.
pub record Guid : Type 0 where
  pub data1 : ℕ
  pub data2 : ℕ
  pub data3 : ℕ
  pub data4 : List ℕ

-- The values that the struct's fields can hold.
pub record IsGuid (g : Guid) : Type 0 where
  pub wide1 : g.data1 < 2 ^ 32
  pub wide2 : g.data2 < 2 ^ 16
  pub wide3 : g.data3 < 2 ^ 16
  pub eight : length g.data4 ≡ 8
  pub bytes : All IsByte g.data4

-- The 16 bytes of the packed struct in disk order.
unfoldable pub encode_guid : Guid → List ℕ
encode_guid g = le_bytes 4 g.data1 ++ (le_bytes 2 g.data2 ++ (le_bytes 2 g.data3 ++ g.data4))

unfoldable pub decode_guid : List ℕ → Guid
decode_guid bs = record {
  data1 = of_le (take 4 bs);
  data2 = of_le (slice 4 2 bs);
  data3 = of_le (slice 6 2 bs);
  data4 = slice 8 8 bs;
}

-- `guidcmp(a, b) == 0`, the bytes compared.
unfoldable pub guid_eq : Guid → Guid → Bool
unfolding bytes_eq
guid_eq a b = bytes_eq (encode_guid a) (encode_guid b)

-- `getbyte(x, s)`.
abbrev getbyte : ℕ → ℕ → ℕ
getbyte x s = x / 256 ^ s % 256

-- The macro `GPT_GUID`.
gpt_guid : ℕ → ℕ → ℕ → ℕ → ℕ → Guid
gpt_guid a b c d1 d2 = record {
  data1 = a;
  data2 = b;
  data3 = c;
  data4 =
      getbyte d1 1
      ∷ getbyte d1 0
      ∷ getbyte d2 5
      ∷ getbyte d2 4
      ∷ getbyte d2 3
      ∷ getbyte d2 2
      ∷ getbyte d2 1
      ∷ getbyte d2 0
      ∷ [];
}

-- `enum part_type`.
pub data PartType : Type 0 where
  part_linux part_android_boot part_android_recovery part_android_tertiary : PartType
  part_android_misc part_android_metadata part_ms_data part_ms_reserved : PartType
  part_esp part_linux_swap : PartType

unfoldable pub get_guid_type : PartType → Guid
unfolding gpt_guid
get_guid_type part_linux = gpt_guid 0x0FC63DAF 0x8483 0x4772 0x8E79 0x3D69D8477DE4
get_guid_type part_linux_swap = gpt_guid 0x0657FD6D 0xA4AB 0x43C4 0x84E5 0x0933C84B4F4F
get_guid_type part_ms_data = gpt_guid 0xEBD0A0A2 0xB9E5 0x4433 0x87C0 0x68B6B72699C7
get_guid_type part_esp = gpt_guid 0xC12A7328 0xF81F 0x11D2 0xBA4B 0x00A0C93EC93B
get_guid_type part_ms_reserved = gpt_guid 0xE3C9E316 0x0B5C 0x4DB8 0x817D 0xF92DF00215AE
get_guid_type part_android_boot = gpt_guid 0x49a4d17f 0x93a3 0x45c1 0xa0de 0xf50b2ebe2599
get_guid_type part_android_misc = gpt_guid 0xef32a33b 0xa409 0x486c 0x9141 0x9ffb711f6266
get_guid_type part_android_recovery = gpt_guid 0x4177c722 0x9e92 0x4aab 0x8644 0x43502bfd5506
get_guid_type part_android_tertiary = gpt_guid 0x767941d0 0x2085 0x11e3 0xad3b 0x6cfdb94711e9
get_guid_type part_android_metadata = gpt_guid 0x20ac26be 0x20b7 0x11e3 0x84c5 0x6cfdb94711e9

-- The version and variant bits that `generate_uuid` sets.
unfoldable pub stamp_uuid : Guid → Guid
stamp_uuid g = record g {
  data3 = bit_or (bit_and g.data3 0x0FFF) 0x4000;
  data4 = bit_or (bit_and (get_or g.data4 0 0) 0x3F) 0x80 ∷ drop 1 g.data4;
}

-- `random` is what one read of 16 bytes from /dev/urandom gives, and `none` a failed read.
unfoldable pub generate_uuid : Option (List ℕ) → Option Guid
unfolding stamp_uuid
generate_uuid none = none
generate_uuid (some random) = some (stamp_uuid (decode_guid random))
