-- ===== src/Mbr/Length.antt =====
-- The sizes of a disk configuration: editdisklbl/diskconfig.c `parse_len`.
pub mod Laws
use platform_bootable_iago.Base.{
  ℕ, zero, suc, ◌+◌, ◌-◌, ◌*◌, ◌^◌, Bool, true, false, ◌&&◌, ◌||◌, List, [], ◌∷◌, Option, none,
  some, min, ltb, leb, ◌==◌, if◌then◌else◌, take, length, u64,
}
use platform_bootable_iago.Gpt.Name.{last_char}

-- The value of a digit; 36 for a character that is none.
unfoldable pub digit_value : ℕ → ℕ
digit_value c =
    if leb b'0' c && leb c b'9'
    then c - b'0'
    else if leb b'a' c && leb c b'z'
    then c - b'a' + 10
    else if leb b'A' c && leb c b'Z'
    then c - b'A' + 10
    else 36

-- The number that the digits in front of a string stand for, after those that made `n`.
unfoldable pub digits : ℕ → ℕ → List ℕ → ℕ
unfolding digit_value
digits base n [] = n
digits base n (c ∷ cs) =
    let rest = digits base (n * base + digit_value c) cs in
    if ltb (digit_value c) base then rest else n

-- The base that `strtoull` finds for base 0: "0x" in front of a digit is 16, "0" is 8.
unfoldable pub based : List ℕ → ℕ
unfolding digits
based [] = 0
based (c ∷ []) = digits 10 0 (c ∷ [])
based (c ∷ d ∷ []) = digits (if c == b'0' then 8 else 10) 0 (c ∷ d ∷ [])
based (c ∷ d ∷ e ∷ cs) =
    if (c == b'0') && (d == b'x' || (d == b'X')) && ltb (digit_value e) 16
    then digits 16 0 (e ∷ cs)
    else digits (if c == b'0' then 8 else 10) 0 (c ∷ d ∷ e ∷ cs)

-- A number that does not fit is the largest one.
abbrev saturate : ℕ → ℕ
saturate n = min n (2 ^ 64 - 1)

unfoldable pub signed : List ℕ → ℕ
unfolding based
signed [] = 0
signed (c ∷ cs) =
    if c == b'-'
    then (if ltb (based cs) (2 ^ 64) then u64 (2 ^ 64 - based cs) else 2 ^ 64 - 1)
    else saturate (if c == b'+' then based cs else based (c ∷ cs))

-- `strtoull(str, NULL, 0)`.
unfoldable pub strtoull : List ℕ → ℕ
unfolding signed
strtoull [] = 0
strtoull (c ∷ cs) =
    let rest = strtoull cs in if c == 32 || (leb 9 c && leb c 13) then rest else signed (c ∷ cs)

-- The factor of a suffix: that of M after the fall-through to K.
unfoldable pub multiple_of : ℕ → ℕ
multiple_of c =
    if c == b'M' || (c == b'm') then 2 ^ 20 else if c == b'K' || (c == b'k') then 2 ^ 10 else 1

-- The length in KB that a number and the factor of its suffix give.
unfoldable pub scaled : ℕ → ℕ → Option ℕ
scaled len multiple =
    let factor = if ltb 1024 multiple then 1024 else multiple in
    let kb = u64 (len * factor) in
    if len == 0
    then none
    else if len == 2 ^ 64 - 1
    then (if ltb 1 multiple then none else some len)
    else if ltb 0xffffffff kb
    then none
    else some kb

-- The string without its suffix.
unfoldable pub number_part : List ℕ → List ℕ
number_part tmp = if ltb 1 (multiple_of (last_char tmp)) then take (length tmp - 1) tmp else tmp

-- What follows the copy of the string; `none` is the error 1.
unfoldable pub parse_tmp : List ℕ → Option ℕ
unfolding strtoull scaled multiple_of number_part
parse_tmp tmp =
    if length tmp == 0
    then none
    else scaled (strtoull (number_part tmp)) (multiple_of (last_char tmp))

-- The copy has 63 characters at most.
unfoldable pub parse_len : List ℕ → Option ℕ
unfolding parse_tmp
parse_len str = parse_tmp (take 63 str)
