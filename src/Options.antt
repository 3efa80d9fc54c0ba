-- ===== src/Options.antt =====
-- The installer's options: installer/util.c `hashmapGetPrintf`, `xhashmapPut`,
-- `string_list_iterate`, `xatoll`. A C string is the list of its bytes before the NUL, and `none`
-- is the end of the program by `die`.
pub mod Append
pub mod Laws
use platform_bootable_iago.Base.{
  ℕ, zero, suc, ◌+◌, ◌-◌, ◌*◌, ◌^◌, ◌≡◌, ◌≢◌, Bool, ◌||◌, ◌&&◌, List, [], ◌∷◌, ◌++◌, Option, none,
  some, ltb, leb, ◌==◌, if◌then◌else◌, u64,
}

-- The hash map of libcutils, with string keys and values.
pub record Hashmap : Type 1 where
  pub Map : Type 0
  pub get : List ℕ → Map → Option (List ℕ)
  pub put : List ℕ → List ℕ → Map → Map
  pub get-put_same : (k v : List ℕ) (m : Map) → get k (put k v m) ≡ some v
  pub get-put_other : (k k' v : List ℕ) (m : Map) → k ≢ k' → get k' (put k v m) ≡ get k' m

-- `hashmapGetPrintf` with the formatted key; a default of NULL is `none`.
unfoldable pub get_or_die : (hm : Hashmap) → Option (List ℕ) → List ℕ → hm.Map → Option (List ℕ)
get_or_die hm dfl key opts = elim (hm.get key opts) [ some v ↦ some v | none ↦ dfl ]

-- The separators of a string list: space and tab.
abbrev pub is_separator : ℕ → Bool
is_separator c = c == 32 || (c == 9)

abbrev pub keep_word : List ℕ → List (List ℕ) → List (List ℕ)
keep_word [] ws = ws
keep_word (c ∷ cs) ws = (c ∷ cs) ∷ ws

-- The word that a string begins with, and the words behind it.
unfoldable pub cut : List ℕ → List ℕ × List (List ℕ)
cut [] = ([], [])
cut (c ∷ cs) = let (w, ws) = cut cs in if is_separator c then ([], keep_word w ws) else (c ∷ w, ws)

-- What `strtok_r` makes of a string list.
unfoldable pub entries_of : List ℕ → List (List ℕ)
unfolding cut
entries_of str = let (w, ws) = cut str in keep_word w ws

-- The loop of `string_list_iterate`, for a callback that never asks to stop.
unfoldable pub iterate {ℓ} : {S : Type ℓ} → (List ℕ → S → Option S) → List (List ℕ) → S → Option S
iterate cb [] s = some s
iterate cb (e ∷ es) s = elim (cb e s) [ none ↦ none | some s' ↦ iterate cb es s' ]

unfoldable pub string_list_iterate {ℓ} :
    {S : Type ℓ} → List ℕ → (List ℕ → S → Option S) → S → Option S
unfolding iterate entries_of
string_list_iterate str cb s = iterate cb (entries_of str) s

abbrev is_space : ℕ → Bool
is_space c = c == 32 || (leb 9 c && leb c 13)

abbrev is_digit : ℕ → Bool
is_digit c = leb b'0' c && leb c b'9'

-- The number that the digits in front of a string stand for, after those that made `n`.
unfoldable pub digits_from : ℕ → List ℕ → ℕ
digits_from n [] = n
digits_from n (c ∷ cs) =
    let rest = digits_from (n * 10 + (c - b'0')) cs in if is_digit c then rest else n

-- A string that begins with a digit, as its number.
unfoldable pub number : List ℕ → Option ℕ
unfolding digits_from
number [] = none
number (c ∷ cs) = if is_digit c then some (digits_from 0 (c ∷ cs)) else none

-- `strtoll` behind the white space: a sign, and digits that stay in range.
abbrev pub negative : Option ℕ → Option ℕ
negative none = none
negative (some n) = if leb n (2 ^ 63) then some (u64 (2 ^ 64 - n)) else none

abbrev pub positive : Option ℕ → Option ℕ
positive none = none
positive (some n) = if ltb n (2 ^ 63) then some n else none

unfoldable pub signed_number : List ℕ → Option ℕ
unfolding number
signed_number [] = none
signed_number (c ∷ cs) =
    if c == b'-'
    then negative (number cs)
    else if c == b'+'
    then positive (number cs)
    else positive (number (c ∷ cs))

-- A signed 64-bit number in two's complement.
unfoldable pub xatoll : List ℕ → Option ℕ
unfolding signed_number
xatoll [] = none
xatoll (c ∷ cs) = let rest = xatoll cs in if is_space c then rest else signed_number (c ∷ cs)
