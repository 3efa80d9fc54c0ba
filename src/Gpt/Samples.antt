-- ===== src/Gpt/Samples.antt =====
-- Tables and entries at which the theorems on libgpt/gpt.c are applied.
use platform_bootable_iago.Base.{
  ℕ, ◌+◌, ◌*◌, ◌^◌, ◌<◌, ◌≡◌, ◌≢◌, refl, ap, sym, arith, List, [], ◌∷◌, ◌++◌, true, IsByte, length,
  replicate, length-replicate, All-replicate,
}
use mathlib.Core.Path.{subst}
use platform_bootable_iago.Device.{Device}
use platform_bootable_iago.Gpt.Guid.{IsGuid}
use platform_bootable_iago.Gpt.Entry.{Entry, IsEntry, zero_guid, decode_entry}
use platform_bootable_iago.Gpt.Header.{Header, IsHeader, efi_part}
use platform_bootable_iago.Gpt.Table.{
  Gpt, IsTable, InTable, entry_at, set_entry, gpt_next_index, next_from, gpt_entry_offset,
}
use platform_bootable_iago.Gpt.Table.Laws.{entry_at-set_self}
use platform_bootable_iago.Gpt.Table.Scan.{IsFree}
use platform_bootable_iago.Gpt.FreeSpace.Largest.{IsLaidOut}
use platform_bootable_iago.Gpt.Disk.{Host}
use platform_bootable_iago.Gpt.Disk.Copies.{Fits}

-- A checksum for the runs.
abbrev pub host : Host
host = record { crc32 = λ start bs. start + length bs; crc_start = 7; beyond = [] }

-- A header for `n` entries.
abbrev pub header_of : ℕ → Header
header_of n = record {
  sig = efi_part;
  revision = 0x00010000;
  header_size = 92;
  crc32 = 0;
  reserved_zero = 0;
  current_lba = 0;
  backup_lba = 0;
  first_usable_lba = 3;
  last_usable_lba = 17;
  disk_guid = zero_guid;
  pentry_start_lba = 0;
  num_pentries = n;
  pentry_size = 128;
  pentry_crc32 = 0;
}

-- An empty table of `n` entries for a disk of 20 blocks, called "sda".
abbrev pub table_of : ℕ → Gpt
table_of n = record {
  header = header_of n;
  entries = replicate (n * 128) 0;
  lba_size = 512;
  sectors = 20;
  device = b's' ∷ b'd' ∷ b'a' ∷ [];
}

abbrev pub disk : Device
disk = record { bytes = replicate 10240 0; opens = true; sched = [] }

abbrev pub random : List ℕ
random = 1 ∷ 2 ∷ 3 ∷ 4 ∷ 5 ∷ 6 ∷ 7 ∷ 255 ∷ 255 ∷ 10 ∷ 11 ∷ 12 ∷ 13 ∷ 14 ∷ 15 ∷ 16 ∷ []

-- "boot"
abbrev pub boot : List ℕ
boot = b'b' ∷ b'o' ∷ b'o' ∷ b't' ∷ []

abbrev pub long_name : List ℕ
long_name = boot ++ (boot ++ (boot ++ (boot ++ (boot ++ (boot ++ (boot ++ (boot ++ boot)))))))

zero_guid-IsGuid : IsGuid zero_guid
zero_guid-IsGuid = record {
  wide1 = omega arith;
  wide2 = omega arith;
  wide3 = omega arith;
  eight = length-replicate 8 0;
  bytes = All-replicate IsByte 8 0 (omega arith);
}

pub header_of-IsHeader : (n : ℕ) → n < 2 ^ 32 → IsHeader (header_of n)
header_of-IsHeader n h = record {
  sig_len = omega arith;
  revision_wide = omega arith;
  size_wide = omega arith;
  crc_wide = omega arith;
  reserved_wide = omega arith;
  current_wide = omega arith;
  backup_wide = omega arith;
  first_wide = omega arith;
  last_wide = omega arith;
  guid_ok = zero_guid-IsGuid;
  start_wide = omega arith;
  num_wide = h;
  stride_wide = omega arith;
  pcrc_wide = omega arith;
}

pub table_of-IsTable : (n : ℕ) → n < 1000 → IsTable (table_of n)
table_of-IsTable n h = record {
  stride = omega arith;
  small = omega arith;
  room = length-replicate (n * 128) 0;
  bytes = All-replicate IsByte (n * 128) 0 (omega arith);
}

pub four-Fits : Fits (table_of 4) disk 1
four-Fits = record {
  table = table_of-IsTable 4 (omega arith);
  header = header_of-IsHeader 4 (omega arith);
  blocks = omega arith;
  block = omega arith;
  enough = omega arith;
  room = omega (arith, length-replicate {A = ℕ} 10240 0);
  small = omega arith;
  open_ok = refl;
}

-- An entry in use.
abbrev pub used_entry : Entry
used_entry = record {
  type_guid = zero_guid;
  part_guid = zero_guid;
  first_lba = 3;
  last_lba = 9;
  flags = 1;
  name = replicate 36 66;
}

pub used_entry-IsEntry : IsEntry used_entry
used_entry-IsEntry = record {
  type_ok = zero_guid-IsGuid;
  part_ok = zero_guid-IsGuid;
  first_wide = omega arith;
  last_wide = omega arith;
  flags_wide = omega arith;
  name_len = length-replicate 36 66;
  name_wide = All-replicate (λ c. c < 2 ^ 16) 36 66 (omega arith);
}

-- A table whose only entry is in use.
abbrev pub full : Gpt
full = set_entry 1 used_entry (table_of 1)

full-eq : (j : ℕ) → InTable j full → entry_at j full ≡ used_entry
unfolding set_entry
full-eq j h = subst (λ i. entry_at i full ≡ used_entry) (sym one) here
  where
    one : j ≡ 1
    one = omega arith

    here : entry_at 1 full ≡ used_entry
    here =
        entry_at-set_self (table_of-IsTable 1 (omega arith)) 1 used_entry (omega arith)
          used_entry-IsEntry

full-used : (j : ℕ) → InTable j full → ¬ IsFree j full
full-used j h free = omega (arith, ap (λ e. e.first_lba) (full-eq j h))

pub full-IsLaidOut : IsLaidOut full
unfolding set_entry
full-IsLaidOut = record {
  area = omega arith;
  small = omega arith;
  within = λ i h used. rw (full-eq i h) (omega arith);
  disjoint = λ i j hi hj lt ui uj. absurd (omega arith);
}

empty_free : gpt_next_index (table_of 4) ≡ 1
unfolding gpt_next_index next_from entry_at decode_entry gpt_entry_offset replicate
empty_free = refl

pub some_free : gpt_next_index (table_of 4) ≢ 0
some_free e = absurd (omega (arith, empty_free))
