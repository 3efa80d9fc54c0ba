-- ===== src/Gpt/Name.antt =====
-- Partition names and device nodes: libgpt/gpt.c `lechar16_to_ascii`, `gpt_entry_get_name`,
-- `gpt_entry_set_name`, `gpt_get_device_node`. A C string is the list of its bytes before the NUL.
pub mod Laws
use platform_bootable_iago.Base.{
  ℕ, zero, suc, ◌+◌, ◌-◌, ◌/◌, ◌%◌, ◌<◌, Bool, true, false, ◌&&◌, List, [], ◌∷◌, ◌++◌, map, Option,
  none, some, ltb, leb, ◌==◌, if◌then◌else◌, length, splice, u32,
}
use mathlib.Core.Option
use platform_bootable_iago.Gpt.Entry.{Entry}
use platform_bootable_iago.Gpt.Table.{Gpt}

-- The units before the first 0. `none` is a name with no 0, where the C scan leaves the struct.
unfoldable pub until_nul : List ℕ → Option (List ℕ)
until_nul [] = none
until_nul (c ∷ cs) =
    let rest = Option.map (◌∷◌ c) (until_nul cs) in if c == 0 then some [] else rest

-- One unit as `lechar16_to_ascii` prints it.
abbrev to_ascii : ℕ → ℕ
to_ascii p = if ltb 127 p then b'?' else p

unfoldable pub lechar16_to_ascii : List ℕ → Option (List ℕ)
unfolding until_nul
lechar16_to_ascii str16 = Option.map (map to_ascii) (until_nul str16)

unfoldable pub gpt_entry_get_name : Entry → Option (List ℕ)
unfolding lechar16_to_ascii
gpt_entry_get_name e = lechar16_to_ascii e.name

-- `(uint16_t)name[i]`, where `char` is signed.
abbrev pub char_to_u16 : ℕ → ℕ
char_to_u16 c = if ltb c 128 then c else c + 0xFF00

-- `none` is the -1 for a name of more than 35 characters, which changes nothing.
unfoldable pub gpt_entry_set_name : Entry → List ℕ → Option Entry
gpt_entry_set_name e name =
    if ltb 35 (length name)
    then none
    else some (record e { name = splice 0 (map char_to_u16 name ++ (0 ∷ [])) e.name })

-- The decimal digits of `n` in front of `rest`, as `%d` prints them: `fuel` digits at most.
unfoldable pub decimal_from : ℕ → ℕ → List ℕ → List ℕ
decimal_from zero n rest = rest
decimal_from (suc fuel) n rest =
    let digit = n % 10 + b'0' in
    let more = decimal_from fuel (n / 10) (digit ∷ rest) in
    if n / 10 == 0 then digit ∷ rest else more

-- A 32-bit number has ten digits at most. (`%d` prints indices from 2^31 on as negative.)
unfoldable pub decimal : ℕ → List ℕ
unfolding decimal_from
decimal n = decimal_from 10 n []

abbrev is_digit : ℕ → Bool
is_digit c = leb b'0' c && leb c b'9'

-- The last character of a string; 0 for the empty string, where the C reads before the start.
abbrev pub last_char : List ℕ → ℕ
last_char [] = 0
last_char (c ∷ []) = c
last_char (c ∷ d ∷ cs) = last_char (d ∷ cs)

-- The node of a partition: the disk's name and the index, with a `p` between digits.
unfoldable pub gpt_get_device_node : ℕ → Gpt → List ℕ
unfolding decimal
gpt_get_device_node i g =
    if is_digit (last_char g.device) then g.device ++ (b'p' ∷ decimal i) else g.device ++ decimal i
