-- ===== src/Gpt/Entry.antt =====
-- `struct gpt_entry` of include/gpt/gpt.h and its 128 bytes in the entry array; the conversions
-- of libgpt/gpt.c between disk order and host order, one entry each.
pub mod Laws
use platform_bootable_iago.Base.{
  ℕ, zero, suc, ◌^◌, ◌<◌, ◌≡◌, List, [], ◌∷◌, ◌++◌, length, take, drop, slice, replicate, All,
  le_bytes, of_le,
}
use platform_bootable_iago.Gpt.Guid.{Guid, IsGuid, encode_guid, decode_guid}

pub record Entry : Type 0 where
  pub type_guid : Guid
  pub part_guid : Guid
  pub first_lba : ℕ
  pub last_lba : ℕ
  pub flags : ℕ
  pub name : List ℕ

-- The values that the struct's fields can hold.
pub record IsEntry (e : Entry) : Type 0 where
  pub type_ok : IsGuid e.type_guid
  pub part_ok : IsGuid e.part_guid
  pub first_wide : e.first_lba < 2 ^ 64
  pub last_wide : e.last_lba < 2 ^ 64
  pub flags_wide : e.flags < 2 ^ 64
  pub name_len : length e.name ≡ 36
  pub name_wide : All (λ c. c < 2 ^ 16) e.name

pub encode_name : List ℕ → List ℕ
encode_name [] = []
encode_name (c ∷ cs) = le_bytes 2 c ++ encode_name cs

pub decode_name : ℕ → List ℕ → List ℕ
decode_name zero bs = []
decode_name (suc n) bs = of_le (take 2 bs) ∷ decode_name n (drop 2 bs)

-- An entry in disk order, as `gpt_entries_bytes_to_le` leaves it.
pub encode_entry : Entry → List ℕ
encode_entry e =
    encode_guid e.type_guid
    ++ (encode_guid e.part_guid
        ++ (le_bytes 8 e.first_lba
            ++ (le_bytes 8 e.last_lba ++ (le_bytes 8 e.flags ++ encode_name e.name))))

-- An entry in host order, as `gpt_entries_bytes_to_host` leaves it.
unfoldable pub decode_entry : List ℕ → Entry
decode_entry bs =
    let guids = drop 16 bs in
    let rest = drop 16 guids in
    record {
      type_guid = decode_guid bs;
      part_guid = decode_guid guids;
      first_lba = of_le (take 8 rest);
      last_lba = of_le (slice 8 8 rest);
      flags = of_le (slice 16 8 rest);
      name = decode_name 36 (drop 24 rest);
    }

abbrev pub zero_guid : Guid
zero_guid = record { data1 = 0; data2 = 0; data3 = 0; data4 = replicate 8 0 }

-- What `memset(e, 0, sizeof(struct gpt_entry))` leaves.
abbrev pub zero_entry : Entry
zero_entry = record {
  type_guid = zero_guid;
  part_guid = zero_guid;
  first_lba = 0;
  last_lba = 0;
  flags = 0;
  name = replicate 36 0;
}
