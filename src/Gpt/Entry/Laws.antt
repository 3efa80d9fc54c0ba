-- ===== src/Gpt/Entry/Laws.antt =====
-- The byte layout of `struct gpt_entry`.
use platform_bootable_iago.Base.{
  ℕ, zero, suc, ◌*◌, ◌^◌, ◌<◌, ◌≡◌, refl, ap, ap₂, ◌∙◌, arith, List, ◌++◌, ◌∷◌, [], length,
  replicate, take, drop, slice, drop-append, of_le-le_bytes, le_bytes, of_le, All, length-append,
  ◌≤◌, All-append, le_bytes-IsByte, of_le-slice-lt, length-drop, All-drop, IsByte,
}
use mathlib.Core.List.{append_assoc}
use platform_bootable_iago.Gpt.Guid.{encode_guid, decode_guid}
use platform_bootable_iago.Gpt.Guid.Laws.{
  decode_guid-encode_guid, length-encode_guid, encode_guid-IsByte, decode_guid-IsGuid,
}
use platform_bootable_iago.Gpt.Entry.{
  Entry, IsEntry, encode_entry, decode_entry, encode_name, decode_name,
}

length-encode_name : (cs : List ℕ) → length (encode_name cs) ≡ 2 * length cs
unfolding encode_name
length-encode_name [] = omega arith
length-encode_name (c ∷ cs) = omega (arith, length-encode_name cs)

decode_name-encode_name :
    (n : ℕ) (cs rest : List ℕ)
    → length cs ≡ n
    → All (λ c. c < 2 ^ 16) cs
    → decode_name n (encode_name cs ++ rest) ≡ cs
unfolding encode_name decode_name
decode_name-encode_name zero [] rest e h = refl
decode_name-encode_name zero (c ∷ cs) rest e h = absurd (omega arith)
decode_name-encode_name (suc n) [] rest e h = absurd (omega arith)
decode_name-encode_name (suc n) (c ∷ cs) rest e h =
    ap₂ ◌∷◌ (of_le-le_bytes 2 c h.0) (decode_name-encode_name n cs rest (omega arith) h.1)

-- An entry takes 128 bytes.
pub length-encode_entry : (e : Entry) → IsEntry e → length (encode_entry e) ≡ 128
unfolding encode_entry
length-encode_entry e v = omega (
  arith,
  length-append (encode_guid e.type_guid) _,
  length-append (encode_guid e.part_guid) _,
  length-encode_guid e.type_guid v.type_ok.eight,
  length-encode_guid e.part_guid v.part_ok.eight,
  length-encode_name e.name,
)

-- The fields behind the two GUIDs.
abbrev numbers : Entry → List ℕ
numbers e =
    le_bytes 8 e.first_lba ++ (le_bytes 8 e.last_lba ++ (le_bytes 8 e.flags ++ encode_name e.name))

module _ (e : Entry) (rest : List ℕ) (v : IsEntry e) where
  -- The bytes of the entry, bracketed field by field.
  abbrev fields : List ℕ
  fields = encode_guid e.type_guid ++ (encode_guid e.part_guid ++ (numbers e ++ rest))

  encode_entry-fields : encode_entry e ++ rest ≡ fields
  unfolding encode_entry
  encode_entry-fields =
      append_assoc (encode_guid e.type_guid) (encode_guid e.part_guid ++ numbers e) rest
      ∙ ap (◌++◌ (encode_guid e.type_guid))
          (append_assoc (encode_guid e.part_guid) (numbers e) rest)

  behind_type : drop 16 fields ≡ encode_guid e.part_guid ++ (numbers e ++ rest)
  behind_type = drop-append 16 _ _ (length-encode_guid e.type_guid v.type_ok.eight)

  behind_guids : drop 16 (drop 16 fields) ≡ numbers e ++ rest
  behind_guids =
      ap (drop 16) behind_type ∙ drop-append 16 _ _ (length-encode_guid e.part_guid v.part_ok.eight)

  decode_entry-fields : decode_entry fields ≡ e
  unfolding decode_entry
  decode_entry-fields = λ i. record {
    type_guid =
        decode_guid-encode_guid e.type_guid (encode_guid e.part_guid ++ (numbers e ++ rest))
          v.type_ok i;
    part_guid =
        (ap decode_guid behind_type
            ∙ decode_guid-encode_guid e.part_guid (numbers e ++ rest) v.part_ok)
          i;
    first_lba =
        (ap (λ r. of_le (take 8 r)) behind_guids ∙ of_le-le_bytes 8 e.first_lba v.first_wide) i;
    last_lba =
        (ap (λ r. of_le (slice 8 8 r)) behind_guids ∙ of_le-le_bytes 8 e.last_lba v.last_wide) i;
    flags = (ap (λ r. of_le (slice 16 8 r)) behind_guids ∙ of_le-le_bytes 8 e.flags v.flags_wide) i;
    name =
        (ap (λ r. decode_name 36 (drop 24 r)) behind_guids
            ∙ decode_name-encode_name 36 e.name rest v.name_len v.name_wide)
          i;
  }

  -- An entry whose fields hold values of their widths is read back from its 128 bytes in the array,
  -- whatever follows them.
  pub decode_entry-encode_entry : decode_entry (encode_entry e ++ rest) ≡ e
  decode_entry-encode_entry = ap decode_entry encode_entry-fields ∙ decode_entry-fields

encode_name-IsByte : (cs : List ℕ) → All IsByte (encode_name cs)
unfolding encode_name
encode_name-IsByte [] = tt
encode_name-IsByte (c ∷ cs) =
    All-append IsByte (le_bytes 2 c) _ (le_bytes-IsByte 2 c) (encode_name-IsByte cs)

numbers-IsByte : (e : Entry) → All IsByte (numbers e)
numbers-IsByte e =
    All-append IsByte (le_bytes 8 e.first_lba)
      (le_bytes 8 e.last_lba ++ (le_bytes 8 e.flags ++ encode_name e.name))
      (le_bytes-IsByte 8 e.first_lba)
      (All-append IsByte (le_bytes 8 e.last_lba) (le_bytes 8 e.flags ++ encode_name e.name)
        (le_bytes-IsByte 8 e.last_lba)
        (All-append IsByte (le_bytes 8 e.flags) (encode_name e.name) (le_bytes-IsByte 8 e.flags)
          (encode_name-IsByte e.name)))

pub encode_entry-IsByte : (e : Entry) → IsEntry e → All IsByte (encode_entry e)
unfolding encode_entry
encode_entry-IsByte e v =
    All-append IsByte (encode_guid e.type_guid) (encode_guid e.part_guid ++ numbers e)
      (encode_guid-IsByte e.type_guid v.type_ok)
      (All-append IsByte (encode_guid e.part_guid) (numbers e)
        (encode_guid-IsByte e.part_guid v.part_ok) (numbers-IsByte e))

module _ (n : ℕ) (bs : List ℕ) where
  NameShape : Type 0
  NameShape = (length (decode_name n bs) ≡ n) × All (λ c. c < 2 ^ 16) (decode_name n bs)

decode_name-shape : (n : ℕ) (bs : List ℕ) → 2 * n ≤ length bs → All IsByte bs → NameShape n bs
unfolding NameShape decode_name
decode_name-shape zero bs long h = (refl, tt)
decode_name-shape (suc n) bs long h =
    let (len, wide) =
      decode_name-shape n (drop 2 bs) (omega (arith, length-drop 2 bs)) (All-drop IsByte 2 bs h) in
    (ap suc len, (of_le-slice-lt 0 2 bs (omega arith) h, wide))

-- Any 128 bytes are an entry.
pub decode_entry-IsEntry :
    (bs : List ℕ) → length bs ≡ 128 → All IsByte bs → IsEntry (decode_entry bs)
unfolding decode_entry NameShape
decode_entry-IsEntry bs long h = record {
  type_ok = decode_guid-IsGuid bs (omega arith) h;
  part_ok = decode_guid-IsGuid guids (omega (arith, len1)) bytes1;
  first_wide = of_le-slice-lt 0 8 rest (omega (arith, len2)) bytes2;
  last_wide = of_le-slice-lt 8 8 rest (omega (arith, len2)) bytes2;
  flags_wide = of_le-slice-lt 16 8 rest (omega (arith, len2)) bytes2;
  name_len = name.0;
  name_wide = name.1;
}
  where
    guids : List ℕ
    guids = drop 16 bs

    rest : List ℕ
    rest = drop 16 guids

    len1 : length guids ≡ 112
    len1 = omega (arith, length-drop 16 bs)

    len2 : length rest ≡ 96
    len2 = omega (arith, len1, length-drop 16 guids)

    bytes1 : All IsByte guids
    bytes1 = All-drop IsByte 16 bs h

    bytes2 : All IsByte rest
    bytes2 = All-drop IsByte 16 guids bytes1

    name : NameShape 36 (drop 24 rest)
    name =
        decode_name-shape 36 (drop 24 rest) (omega (arith, len2, length-drop 24 rest))
          (All-drop IsByte 24 rest bytes2)

-- A zeroed array slot is an entry that is free.
pub decode_entry-zero : (decode_entry (replicate 128 0)).first_lba ≡ 0
unfolding decode_entry replicate
decode_entry-zero = refl
