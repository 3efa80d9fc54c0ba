-- ===== src/Gpt/Init.antt =====
-- A table before it is read: libgpt/gpt.c `get_sizes` and `gpt_init`. The files of sysfs are a
-- record; a failed allocation is left out.
use platform_bootable_iago.Base.{
  ℕ, ◌-◌, ◌^◌, Bool, not, ◌||◌, ◌&&◌, List, [], ◌∷◌, Option, none, some, leb, ◌==◌, if◌then◌else◌,
  u32, u64,
}
use platform_bootable_iago.Options.{digits_from}
use platform_bootable_iago.Gpt.Header.{Header}
use platform_bootable_iago.Gpt.Table.{Gpt}

-- What `stat` says of the node, and what is read from the two files of its device, where they open
-- and the read does not fail.
pub record Sysfs : Type 0 where
  pub stats : Bool
  pub logical_block_size : Option (List ℕ)
  pub size : Option (List ℕ)

-- `atoll` behind the white space.
abbrev signed_digits : List ℕ → ℕ
signed_digits [] = 0
signed_digits (c ∷ cs) =
    if c == b'-'
    then u64 (2 ^ 64 - u64 (digits_from 0 cs))
    else if c == b'+'
    then u64 (digits_from 0 cs)
    else u64 (digits_from 0 (c ∷ cs))

-- `atoll`, as the 64 bits of its result; a number that does not fit is cut to them.
unfoldable pub atoll : List ℕ → ℕ
atoll [] = 0
atoll (c ∷ cs) =
    let rest = atoll cs in if c == 32 || (leb 9 c && leb c 13) then rest else signed_digits (c ∷ cs)

-- The block size, and the number that the kernel gives for the size of the disk.
unfoldable pub get_sizes : Sysfs → Option (ℕ × ℕ)
get_sizes sysfs = if not sysfs.stats then none else elim sysfs.logical_block_size [
  | none ↦ none
  | some lba ↦ elim sysfs.size [ none ↦ none | some size ↦ some (u32 (atoll lba), atoll size) ]
]

-- What is in the memory of the header, which `gpt_init` leaves as it is; the entries are NULL.
unfoldable pub gpt_init : Header → List ℕ → Sysfs → Option Gpt
gpt_init memory device sysfs = elim (get_sizes sysfs) [
  | none ↦ none
  | some (lba_size, sectors) ↦ some (record {
    header = memory;
    entries = [];
    lba_size = lba_size;
    sectors = sectors;
    device = device;
  })
]
