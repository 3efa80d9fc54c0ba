-- ===== src/Gpt/Name/Laws.antt =====
-- Names read back as they were set, in libgpt/gpt.c.
use platform_bootable_iago.Base.{
  ℕ, ◌+◌, ◌^◌, ◌≤◌, ◌<◌, ◌≡◌, refl, ap, ◌∙◌, arith, List, [], ◌∷◌, ◌++◌, map, some, length,
  length-map, length-append, splice, splice-zero, length-splice, drop, All, All-splice, le→ltb,
}
use platform_bootable_iago.Gpt.Entry.{Entry, IsEntry}
use platform_bootable_iago.Gpt.Name.{
  until_nul, lechar16_to_ascii, gpt_entry_get_name, char_to_u16, gpt_entry_set_name,
}

-- The characters of a C string: no NUL, and one byte each; and those that are ASCII.
abbrev pub IsChar : ℕ → Type 0
IsChar c = (1 ≤ c) × (c < 256)

abbrev pub IsAscii : ℕ → Type 0
IsAscii c = (1 ≤ c) × (c < 128)

-- The units that `gpt_entry_set_name` writes: the characters and the NUL.
abbrev pub units : List ℕ → List ℕ
units name = map char_to_u16 name ++ (0 ∷ [])

ascii_units : (cs rest : List ℕ) → All IsAscii cs → lechar16_to_ascii (units cs ++ rest) ≡ some cs
unfolding lechar16_to_ascii until_nul
ascii_units [] rest h = refl
ascii_units (c ∷ cs) rest h = ground (arith, ascii_units cs rest h.1)

units-IsU16 : (cs : List ℕ) → All IsChar cs → All (λ c. c < 2 ^ 16) (units cs)
units-IsU16 [] h = omega arith
units-IsU16 (c ∷ cs) h = (unit c h.0, units-IsU16 cs h.1)
  where
    unit : (c : ℕ) → IsChar c → char_to_u16 c < 2 ^ 16
    unit c h = ground arith

length-units : (cs : List ℕ) → length (units cs) ≡ length cs + 1
length-units cs =
    omega (arith, length-append (map char_to_u16 cs) (0 ∷ []), length-map char_to_u16 cs)

-- Up to 35 characters fit; the units behind the NUL stay as they were.
pub gpt_entry_set_name-some :
    (e : Entry) (name : List ℕ)
    → length name ≤ 35
    → gpt_entry_set_name e name ≡ some (record e { name = splice 0 (units name) e.name })
unfolding gpt_entry_set_name
gpt_entry_set_name-some e name h = rw (le→ltb 35 (length name) h)

pub set_name-IsEntry :
    (e : Entry) (name : List ℕ)
    → IsEntry e
    → All IsChar name
    → IsEntry (record e { name = splice 0 (units name) e.name })
set_name-IsEntry e name v h = record {
  type_ok = v.type_ok;
  part_ok = v.part_ok;
  first_wide = v.first_wide;
  last_wide = v.last_wide;
  flags_wide = v.flags_wide;
  name_len = length-splice 0 (units name) e.name ∙ v.name_len;
  name_wide = All-splice (λ c. c < 2 ^ 16) 0 (units name) e.name (units-IsU16 name h) v.name_wide;
}

-- An ASCII name of at most 35 characters is accepted, and is the name that the entry then has.
pub get_name-set_name :
    (e : Entry) (name : List ℕ)
    → IsEntry e
    → length name ≤ 35
    → All IsAscii name
    → (e' : Entry) × (gpt_entry_set_name e name ≡ some e') × (gpt_entry_get_name e' ≡ some name)
unfolding gpt_entry_get_name
get_name-set_name e name v short h = (
  record e { name = splice 0 (units name) e.name },
  gpt_entry_set_name-some e name short,
  ap lechar16_to_ascii
        (splice-zero (units name) e.name (omega (arith, length-units name, v.name_len)))
      ∙ ascii_units name (drop (length (units name)) e.name) h,
)
