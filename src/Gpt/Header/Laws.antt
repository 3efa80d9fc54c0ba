-- ===== src/Gpt/Header/Laws.antt =====
-- The byte layout of `struct gpt_header`.
use platform_bootable_iago.Base.{
  ℕ, ◌≡◌, refl, ◌∙◌, ap, ◌++◌, List, arith, length, length-append, take, drop, slice, le_bytes,
  of_le, of_le-le_bytes, take-append, drop-append,
}
use platform_bootable_iago.Gpt.Guid.{encode_guid, decode_guid}
use platform_bootable_iago.Gpt.Guid.Laws.{decode_guid-encode_guid, length-encode_guid}
use platform_bootable_iago.Gpt.Header.{Header, IsHeader, encode_header, decode_header, header_bytes}

-- The fields behind the disk GUID, and those between the signature and it.
abbrev tail_of : Header → List ℕ
tail_of h =
    le_bytes 8 h.pentry_start_lba
    ++ (le_bytes 4 h.num_pentries ++ (le_bytes 4 h.pentry_size ++ le_bytes 4 h.pentry_crc32))

abbrev numbers : Header → List ℕ → List ℕ
numbers h more =
    le_bytes 4 h.revision
    ++ (le_bytes 4 h.header_size
        ++ (le_bytes 4 h.crc32
            ++ (le_bytes 4 h.reserved_zero
                ++ (le_bytes 8 h.current_lba
                    ++ (le_bytes 8 h.backup_lba
                        ++ (le_bytes 8 h.first_usable_lba
                            ++ (le_bytes 8 h.last_usable_lba ++ more)))))))

-- The header takes 92 bytes.
pub length-encode_header :
    (h : Header)
    → length h.sig ≡ 8
    → length h.disk_guid.data4 ≡ 8
    → length (encode_header h) ≡ header_bytes
unfolding encode_header
length-encode_header h e g = omega (
  arith,
  length-append h.sig (numbers h (encode_guid h.disk_guid ++ tail_of h)),
  length-append (encode_guid h.disk_guid) (tail_of h),
  length-encode_guid h.disk_guid g,
)

module _ (h : Header) (v : IsHeader h) where
  behind_sig : drop 8 (encode_header h) ≡ numbers h (encode_guid h.disk_guid ++ tail_of h)
  unfolding encode_header
  behind_sig = drop-append 8 h.sig (numbers h (encode_guid h.disk_guid ++ tail_of h)) v.sig_len

  behind_guid : drop 16 (drop 48 (drop 8 (encode_header h))) ≡ tail_of h
  behind_guid =
      ap (λ r. drop 16 (drop 48 r)) behind_sig
      ∙ drop-append 16 (encode_guid h.disk_guid) (tail_of h)
          (length-encode_guid h.disk_guid v.guid_ok.eight)

  sig_lem : take 8 (encode_header h) ≡ h.sig
  unfolding encode_header
  sig_lem = take-append 8 h.sig (numbers h (encode_guid h.disk_guid ++ tail_of h)) v.sig_len

  -- A header whose fields hold values of their widths is read back from its bytes on disk.
  pub decode_header-encode_header : decode_header (encode_header h) ≡ h
  unfolding decode_header
  decode_header-encode_header = λ i. record {
    sig = sig_lem i;
    revision = (ap (λ r. of_le (take 4 r)) behind_sig ∙ of_le-le_bytes 4 _ v.revision_wide) i;
    header_size = (ap (λ r. of_le (slice 4 4 r)) behind_sig ∙ of_le-le_bytes 4 _ v.size_wide) i;
    crc32 = (ap (λ r. of_le (slice 8 4 r)) behind_sig ∙ of_le-le_bytes 4 _ v.crc_wide) i;
    reserved_zero =
        (ap (λ r. of_le (slice 12 4 r)) behind_sig ∙ of_le-le_bytes 4 _ v.reserved_wide) i;
    current_lba = (ap (λ r. of_le (slice 16 8 r)) behind_sig ∙ of_le-le_bytes 8 _ v.current_wide) i;
    backup_lba = (ap (λ r. of_le (slice 24 8 r)) behind_sig ∙ of_le-le_bytes 8 _ v.backup_wide) i;
    first_usable_lba =
        (ap (λ r. of_le (slice 32 8 r)) behind_sig ∙ of_le-le_bytes 8 _ v.first_wide) i;
    last_usable_lba =
        (ap (λ r. of_le (slice 40 8 r)) behind_sig ∙ of_le-le_bytes 8 _ v.last_wide) i;
    disk_guid =
        (ap (λ r. decode_guid (drop 48 r)) behind_sig
            ∙ decode_guid-encode_guid h.disk_guid (tail_of h) v.guid_ok)
          i;
    pentry_start_lba = (ap (λ r. of_le (take 8 r)) behind_guid ∙ of_le-le_bytes 8 _ v.start_wide) i;
    num_pentries = (ap (λ r. of_le (slice 8 4 r)) behind_guid ∙ of_le-le_bytes 4 _ v.num_wide) i;
    pentry_size = (ap (λ r. of_le (slice 12 4 r)) behind_guid ∙ of_le-le_bytes 4 _ v.stride_wide) i;
    pentry_crc32 = (ap (λ r. of_le (slice 16 4 r)) behind_guid ∙ of_le-le_bytes 4 _ v.pcrc_wide) i;
  }

pub sig-decode_header : (bs : List ℕ) → (decode_header bs).sig ≡ take 8 bs
unfolding decode_header
sig-decode_header bs = refl
