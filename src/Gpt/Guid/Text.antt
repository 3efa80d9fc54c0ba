-- ===== src/Gpt/Guid/Text.antt =====
-- GUIDs as text: libgpt/gpt.c `gpt_guid_to_string`.
use platform_bootable_iago.Base.{
  ℕ, zero, suc, ◌+◌, ◌-◌, ◌*◌, ◌/◌, ◌%◌, ◌^◌, ◌<◌, ◌≡◌, refl, ◌∙◌, arith, List, [], ◌∷◌, ◌++◌, All,
  IsByte, ltb, leb, if◌then◌else◌, length, slice, get_or,
}
use native.Mathlib.Nat.{pow-suc}
use platform_bootable_iago.Gpt.Guid.{Guid, IsGuid}

-- A digit of "%x".
unfoldable pub hex_digit : ℕ → ℕ
hex_digit n = if ltb n 10 then b'0' + n else b'a' + (n - 10)

-- The last `k` hexadecimal digits of a number: "%0kx" for a number that has no more.
unfoldable pub hex : ℕ → ℕ → List ℕ
unfolding hex_digit
hex zero n = []
hex (suc k) n = hex k (n / 16) ++ (hex_digit (n % 16) ∷ [])

-- The characters of a byte of `data4`.
abbrev hex_byte : List ℕ → ℕ → List ℕ
hex_byte data4 i = hex 2 (get_or data4 i 0)

unfoldable pub gpt_guid_to_string : Guid → List ℕ
unfolding hex
gpt_guid_to_string g =
    let byte = hex_byte g.data4 in
    hex 8 g.data1
    ++ (b'-'
        ∷ (hex 4 g.data2
            ++ (b'-'
                ∷ (hex 4 g.data3
                    ++ (b'-'
                        ∷ (byte 0
                            ++ (byte 1
                                ++ (b'-'
                                    ∷ (byte 2
                                        ++ (byte 3
                                            ++ (byte 4 ++ (byte 5 ++ (byte 6 ++ byte 7)))))))))))))

-- The number that digits of "%x" stand for.
unfoldable pub digit_of : ℕ → ℕ
digit_of c = if leb c b'9' then c - b'0' else c - b'a' + 10

unfoldable pub of_hex_from : ℕ → List ℕ → ℕ
of_hex_from n [] = n
of_hex_from n (c ∷ cs) = of_hex_from (n * 16 + digit_of c) cs

abbrev pub of_hex : List ℕ → ℕ
of_hex = of_hex_from 0

-- A GUID read back from its text.
unfoldable pub parse_guid : List ℕ → Guid
parse_guid s = record {
  data1 = of_hex (slice 0 8 s);
  data2 = of_hex (slice 9 4 s);
  data3 = of_hex (slice 14 4 s);
  data4 =
      of_hex (slice 19 2 s)
      ∷ of_hex (slice 21 2 s)
      ∷ of_hex (slice 24 2 s)
      ∷ of_hex (slice 26 2 s)
      ∷ of_hex (slice 28 2 s)
      ∷ of_hex (slice 30 2 s)
      ∷ of_hex (slice 32 2 s)
      ∷ of_hex (slice 34 2 s)
      ∷ [];
}

digit_of-hex_digit : (n : ℕ) → n < 16 → digit_of (hex_digit n) ≡ n
unfolding digit_of hex_digit
digit_of-hex_digit n h = ground arith

of_hex_from-snoc :
    (n : ℕ) (xs : List ℕ) (c : ℕ)
    → of_hex_from n (xs ++ (c ∷ [])) ≡ of_hex_from n xs * 16 + digit_of c
unfolding of_hex_from
of_hex_from-snoc n [] c = refl
of_hex_from-snoc n (x ∷ xs) c = of_hex_from-snoc (n * 16 + digit_of x) xs c

of_hex-hex : (k n : ℕ) → n < 16 ^ k → of_hex (hex k n) ≡ n
unfolding hex of_hex_from
of_hex-hex zero n h = omega arith
of_hex-hex (suc k) n h =
    of_hex_from-snoc 0 (hex k (n / 16)) (hex_digit (n % 16))
    ∙ omega (
      arith,
      of_hex-hex k (n / 16) (omega (arith, pow-suc 16 k)),
      digit_of-hex_digit (n % 16) (omega arith),
    )

-- A byte's two digits.
of_hex-byte : (n : ℕ) → n < 256 → of_hex (hex 2 n) ≡ n
of_hex-byte n h = of_hex-hex 2 n (omega arith)

-- The bytes that the text has of `data4`.
abbrev data4_read : List ℕ → List ℕ
data4_read l =
    of_hex (hex_byte l 0)
    ∷ of_hex (hex_byte l 1)
    ∷ of_hex (hex_byte l 2)
    ∷ of_hex (hex_byte l 3)
    ∷ of_hex (hex_byte l 4)
    ∷ of_hex (hex_byte l 5)
    ∷ of_hex (hex_byte l 6)
    ∷ of_hex (hex_byte l 7)
    ∷ []

data4_back : (l : List ℕ) → length l ≡ 8 → All IsByte l → data4_read l ≡ l
data4_back (a ∷ b ∷ c ∷ d ∷ e ∷ f ∷ g ∷ h ∷ []) n all = λ i.
    of_hex-byte a all.0 i
    ∷ of_hex-byte b all.1.0 i
    ∷ of_hex-byte c all.1.1.0 i
    ∷ of_hex-byte d all.1.1.1.0 i
    ∷ of_hex-byte e all.1.1.1.1.0 i
    ∷ of_hex-byte f all.1.1.1.1.1.0 i
    ∷ of_hex-byte g all.1.1.1.1.1.1.0 i
    ∷ of_hex-byte h all.1.1.1.1.1.1.1.0 i
    ∷ []
data4_back l n all = absurd (omega arith)

-- The text of a GUID with fields in range is read back as the GUID, so different GUIDs have
-- different texts.
pub parse_guid-to_string : (g : Guid) → IsGuid g → parse_guid (gpt_guid_to_string g) ≡ g
unfolding parse_guid gpt_guid_to_string hex
parse_guid-to_string g h = λ i. record {
  data1 = of_hex-hex 8 g.data1 (let w = h.wide1 in omega arith) i;
  data2 = of_hex-hex 4 g.data2 (let w = h.wide2 in omega arith) i;
  data3 = of_hex-hex 4 g.data3 (let w = h.wide3 in omega arith) i;
  data4 = data4_back g.data4 h.eight h.bytes i;
}
