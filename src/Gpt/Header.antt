-- ===== src/Gpt/Header.antt =====
-- `struct gpt_header` of include/gpt/gpt.h and its 92 bytes; libgpt/gpt.c
-- `gpt_header_bytes_to_le` and `gpt_header_bytes_to_host`.
pub mod Laws
use platform_bootable_iago.Base.{
  ℕ, ◌^◌, ◌<◌, ◌≡◌, List, [], ◌∷◌, ◌++◌, length, take, drop, slice, All, le_bytes, of_le, IsByte,
}
use platform_bootable_iago.Gpt.Guid.{Guid, IsGuid, encode_guid, decode_guid}

pub record Header : Type 0 where
  pub sig : List ℕ
  pub revision : ℕ
  pub header_size : ℕ
  pub crc32 : ℕ
  pub reserved_zero : ℕ
  pub current_lba : ℕ
  pub backup_lba : ℕ
  pub first_usable_lba : ℕ
  pub last_usable_lba : ℕ
  pub disk_guid : Guid
  pub pentry_start_lba : ℕ
  pub num_pentries : ℕ
  pub pentry_size : ℕ
  pub pentry_crc32 : ℕ

-- The values that the struct's fields can hold.
pub record IsHeader (h : Header) : Type 0 where
  pub sig_len : length h.sig ≡ 8
  pub revision_wide : h.revision < 2 ^ 32
  pub size_wide : h.header_size < 2 ^ 32
  pub crc_wide : h.crc32 < 2 ^ 32
  pub reserved_wide : h.reserved_zero < 2 ^ 32
  pub current_wide : h.current_lba < 2 ^ 64
  pub backup_wide : h.backup_lba < 2 ^ 64
  pub first_wide : h.first_usable_lba < 2 ^ 64
  pub last_wide : h.last_usable_lba < 2 ^ 64
  pub guid_ok : IsGuid h.disk_guid
  pub start_wide : h.pentry_start_lba < 2 ^ 64
  pub num_wide : h.num_pentries < 2 ^ 32
  pub stride_wide : h.pentry_size < 2 ^ 32
  pub pcrc_wide : h.pentry_crc32 < 2 ^ 32

-- "EFI PART"
abbrev pub efi_part : List ℕ
efi_part = b'E' ∷ b'F' ∷ b'I' ∷ 32 ∷ b'P' ∷ b'A' ∷ b'R' ∷ b'T' ∷ []

-- `sizeof(struct gpt_header)`
abbrev pub header_bytes : ℕ
header_bytes = 92

-- The packed struct in disk order.
pub encode_header : Header → List ℕ
encode_header h =
    h.sig
    ++ (le_bytes 4 h.revision
        ++ (le_bytes 4 h.header_size
            ++ (le_bytes 4 h.crc32
                ++ (le_bytes 4 h.reserved_zero
                    ++ (le_bytes 8 h.current_lba
                        ++ (le_bytes 8 h.backup_lba
                            ++ (le_bytes 8 h.first_usable_lba
                                ++ (le_bytes 8 h.last_usable_lba
                                    ++ (encode_guid h.disk_guid
                                        ++ (le_bytes 8 h.pentry_start_lba
                                            ++ (le_bytes 4 h.num_pentries
                                                ++ (le_bytes 4 h.pentry_size
                                                    ++ le_bytes 4 h.pentry_crc32))))))))))))

pub decode_header : List ℕ → Header
decode_header bs =
    let nums = drop 8 bs in
    let guid = drop 48 nums in
    let tail = drop 16 guid in
    record {
      sig = take 8 bs;
      revision = of_le (take 4 nums);
      header_size = of_le (slice 4 4 nums);
      crc32 = of_le (slice 8 4 nums);
      reserved_zero = of_le (slice 12 4 nums);
      current_lba = of_le (slice 16 8 nums);
      backup_lba = of_le (slice 24 8 nums);
      first_usable_lba = of_le (slice 32 8 nums);
      last_usable_lba = of_le (slice 40 8 nums);
      disk_guid = decode_guid guid;
      pentry_start_lba = of_le (take 8 tail);
      num_pentries = of_le (slice 8 4 tail);
      pentry_size = of_le (slice 12 4 tail);
      pentry_crc32 = of_le (slice 16 4 tail);
    }
