-- ===== src/Partitioner/Samples.antt =====
-- A hash map, a disk and options at which the theorems on installer/partitioner.c are applied.
use platform_bootable_iago.Base.{
  ℕ, zero, suc, ◌≡◌, ◌≢◌, refl, arith, List, [], ◌∷◌, ◌++◌, IsByte, Option, none, some, bytes_eq,
  bytes_eq_refl, bytes_eq_sound, Bool-cases, inl, inr, if◌then◌else◌, replicate, length-replicate,
  All-replicate,
}
use platform_bootable_iago.Gpt.Entry.{zero_guid, decode_entry}
use platform_bootable_iago.Gpt.Header.{efi_part}
use platform_bootable_iago.Gpt.Table.{Gpt, IsTable, InTable, entry_at, gpt_entry_offset}
use platform_bootable_iago.Gpt.Table.Scan.{IsFree}
use platform_bootable_iago.Gpt.FreeSpace.Largest.{IsLaidOut}
use platform_bootable_iago.Options.{Hashmap}
use platform_bootable_iago.Partitioner.Android.{bootloader}
use platform_bootable_iago.Partitioner.Create.{partition_key, len_field, base_ptn_list}

abbrev pub Pairs : Type 0
Pairs = List (List ℕ × List ℕ)

unfoldable pub lookup : List ℕ → Pairs → Option (List ℕ)
lookup k [] = none
lookup k ((k', v) ∷ m) = let rest = lookup k m in if bytes_eq k' k then some v else rest

pub lookup_same : (k v : List ℕ) (m : Pairs) → lookup k ((k, v) ∷ m) ≡ some v
unfolding lookup
lookup_same k v m = rw (bytes_eq_refl k) refl

pub lookup_other : (k k' v : List ℕ) (m : Pairs) → k ≢ k' → lookup k' ((k, v) ∷ m) ≡ lookup k' m
unfolding lookup
lookup_other k k' v m ne = elim (Bool-cases (bytes_eq k k')) [
  | inl same ↦ absurd (ne (bytes_eq_sound k k' same))
  | inr other ↦ rw other refl
]

-- A hash map as a list of its pairs, the newest first.
abbrev pub pairs : Hashmap
pairs = record {
  Map = Pairs;
  get = lookup;
  put = λ k v m. (k, v) ∷ m;
  get-put_same = lookup_same;
  get-put_other = lookup_other;
}

-- An empty table of four entries for a disk of 512 MiB.
abbrev pub empty : Gpt
empty = record {
  header = record {
    sig = efi_part;
    revision = 0x00010000;
    header_size = 92;
    crc32 = 0;
    reserved_zero = 0;
    current_lba = 0;
    backup_lba = 0;
    first_usable_lba = 34;
    last_usable_lba = 1048542;
    disk_guid = zero_guid;
    pentry_start_lba = 0;
    num_pentries = 4;
    pentry_size = 128;
    pentry_crc32 = 0;
  };
  entries = replicate 512 0;
  lba_size = 512;
  sectors = 1048576;
  device = b's' ∷ b'd' ∷ b'a' ∷ [];
}

abbrev pub misc : List ℕ
misc = b'm' ∷ b'i' ∷ b's' ∷ b'c' ∷ []

abbrev pub data_name : List ℕ
data_name = b'd' ∷ b'a' ∷ b't' ∷ b'a' ∷ []

-- "misc data"
abbrev pub partlist : List ℕ
partlist = misc ++ (32 ∷ data_name)

abbrev pub options : Pairs
options =
    (base_ptn_list, partlist)
    ∷ (partition_key misc len_field, b'1' ∷ b'6' ∷ [])
    ∷ (partition_key data_name len_field, b'-' ∷ b'1' ∷ [])
    ∷ (partition_key bootloader len_field, b'3' ∷ b'2' ∷ [])
    ∷ []

abbrev pub random : List ℕ
random = replicate 16 5

abbrev pub entropy : List (Option (List ℕ))
entropy = some random ∷ some random ∷ []

pub empty-IsTable : IsTable empty
empty-IsTable = record {
  stride = omega arith;
  small = omega arith;
  room = length-replicate 512 0;
  bytes = All-replicate IsByte 512 0 (omega arith);
}

pub all_free : (j : ℕ) → InTable j empty → IsFree j empty
unfolding entry_at decode_entry gpt_entry_offset replicate
all_free zero h = absurd (omega arith)
all_free (suc zero) h = refl
all_free (suc (suc zero)) h = refl
all_free (suc (suc (suc zero))) h = refl
all_free (suc (suc (suc (suc zero)))) h = refl
all_free (suc (suc (suc (suc (suc j))))) h = absurd (omega arith)

pub empty-IsLaidOut : IsLaidOut empty
empty-IsLaidOut = record {
  area = omega arith;
  small = omega arith;
  within = λ i h used. absurd (used (all_free i h));
  disjoint = λ i j hi hj lt ui uj. absurd (ui (all_free i hi));
}
