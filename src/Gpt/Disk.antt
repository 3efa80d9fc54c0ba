-- ===== src/Gpt/Disk.antt =====
-- The table on disk: libgpt/gpt.c `get_entries_crc32`, `get_header_crc32`, `write_gpt_to_disk`,
-- `write_mbr`, `gpt_write`, `read_gpt_data`, `gpt_read`.
pub mod Protective
pub mod Sealed
pub mod Copies
pub mod Layout
pub mod Write
pub mod Read
pub mod RoundTrip
use platform_bootable_iago.Base.{
  ℕ, ◌+◌, ◌-◌, ◌*◌, ◌/◌, ◌%◌, ◌^◌, Bool, true, false, List, [], ◌∷◌, ◌++◌, min, ◌==◌, if◌then◌else◌,
  take, length, le_bytes, replicate, u32, u64, bytes_eq, get_or,
}
use platform_bootable_iago.Device.{
  Outcome, Device, Status, success, failure, overrun, Errno, eio, einval, Result, ok, err, hang, Io,
  ◌>>=◌, return, read_at, write_at, and_then,
}
use platform_bootable_iago.Gpt.Header.{Header, encode_header, decode_header, efi_part, header_bytes}
use platform_bootable_iago.Gpt.Table.{Gpt}
use platform_bootable_iago.Gpt.Edit.{gpt_copy}

-- zlib's `crc32` and the value that it gives for no data; and the memory behind a header struct,
-- which a header that gives too large a size of itself makes the checksum run into.
pub record Host : Type 0 where
  pub crc32 : ℕ → List ℕ → ℕ
  pub crc_start : ℕ
  pub beyond : List ℕ

-- `num_pentries * pentry_size`, a 32-bit product.
abbrev pub entries_size : Gpt → ℕ
entries_size g = u32 (g.header.num_pentries * g.header.pentry_size)

-- `struct mbr` of a disk with a GPT, in disk order: one entry of type 0xEE over the whole disk.
unfoldable pub protective_mbr : ℕ → List ℕ
unfolding replicate
protective_mbr sectors =
    replicate 6 0
    ++ (replicate 4 0
        ++ (0xEE
            ∷ (replicate 3 0
                ++ (le_bytes 4 1
                    ++ (le_bytes 4 (min (u64 (sectors + 2 ^ 64 - 1)) 0xFFFFFFFF)
                        ++ (replicate 48 0 ++ le_bytes 2 0xAA55))))))

-- `-EINVAL` where a test fails.
abbrev pub check : Bool → Io (Unit {0})
check b = return (if b then ok tt else err einval)

infixl 5 ◌>>◌
abbrev pub ◌>>◌ {ℓ} : {A : Type ℓ} → Io (Unit {0}) → Io A → Io A
m >> k = m >>= λ _. k

abbrev both_failed {ℓ} : {A : Type ℓ} → Result A × List Outcome → Result A × List Outcome
both_failed (ok g, t) = (ok g, t)
both_failed (hang, t) = (hang, t)
both_failed (err e, t) = (err einval, t)

-- The second copy where the first cannot be read; `-EINVAL` where neither can.
abbrev pub or_else {ℓ} : {A : Type ℓ} → Result A × List Outcome → Io A → Result A × List Outcome
or_else (ok g, t) second = (ok g, t)
or_else (hang, t) second = (hang, t)
or_else (err e, t) second = both_failed (second t)

abbrev pub read_either {ℓ} : {A : Type ℓ} → Io A → Io A → Io A
read_either first second s = or_else (first s) second

-- A table with its addresses on the disk.
abbrev pub placed : Gpt → ℕ → ℕ → ℕ → Gpt
placed g current backup start = record g {
  header = record g.header { current_lba = current; backup_lba = backup; pentry_start_lba = start };
}

-- The copy that goes to the front of the disk, and the one that goes to its end.
abbrev pub primary_copy : Gpt → Gpt
primary_copy g = let c = gpt_copy g in placed c 1 (u64 (c.sectors + 2 ^ 64 - 1)) 2

abbrev pub backup_copy : Gpt → Gpt
backup_copy g =
    let c = gpt_copy g in
    let last = u64 (c.sectors + 2 ^ 64 - 1) in
    placed c last 1 (u64 (last + 2 ^ 64 - entries_size g / c.lba_size))

module _ (host : Host) where
  unfoldable pub get_entries_crc32 : Gpt → ℕ
  get_entries_crc32 g = u32 (host.crc32 host.crc_start (take (entries_size g) g.entries))

  -- Taken with the checksum's own field 0.
  unfoldable pub get_header_crc32 : Header → ℕ
  get_header_crc32 h = u32 (
      host.crc32 host.crc_start
        (take h.header_size (encode_header (record h { crc32 = 0 }) ++ host.beyond)))

  -- The header with both checksums filled in.
  unfoldable pub sealed : Gpt → Header
  sealed g =
      let h = record g.header { pentry_crc32 = get_entries_crc32 g } in
      record h { crc32 = get_header_crc32 h }

  unfoldable pub write_gpt_to_disk : Gpt → Device → Status × Device
  write_gpt_to_disk g dev =
      let header_offset = u64 (g.header.current_lba * g.lba_size) in
      let entries_offset = u64 (g.header.pentry_start_lba * g.lba_size) in
      and_then (write_at dev header_offset (encode_header (sealed g)))
        (λ dev'. write_at dev' entries_offset (take (entries_size g) g.entries))

  unfoldable pub gpt_write : Gpt → Device → Status × Device
  gpt_write g dev = and_then (write_gpt_to_disk (primary_copy g) dev) (λ dev1.
      and_then (write_gpt_to_disk (backup_copy g) dev1)
        (λ dev2. write_at dev2 440 (protective_mbr g.sectors)))

  -- `read_gpt_data` from the header struct that was read: its checks, and the array.
  unfoldable pub read_entries : Device → Gpt → Header → Io Gpt
  read_entries dev g h = do
    check (bytes_eq efi_part h.sig)
    check (get_header_crc32 h == h.crc32)
    bytes ←
        read_at dev (u64 (h.pentry_start_lba * g.lba_size)) (entries_size (record g { header = h }))
    let full = record g { header = h; entries = bytes }
    check (get_entries_crc32 full == h.pentry_crc32)
    return (ok full)

  -- `primary` chooses block 1 or the last block. What is read into `gpt->header` on the way to an
  -- error is not kept: the callers only read it again or close the table.
  unfoldable pub read_gpt_data : Device → Bool → Gpt → Io Gpt
  unfolding read_entries
  read_gpt_data dev primary g = do
    let offset = if primary then 1 else u64 (g.sectors + 2 ^ 64 - 1)
    raw ← read_at dev (u64 (offset * g.lba_size)) header_bytes
    read_entries dev g (decode_header raw)

  unfoldable pub gpt_read : Device → Gpt → Io Gpt
  gpt_read dev g = do
    type ← read_at dev (0x1be + 0x4) 1
    check (get_or type 0 0 == 0xee)
    read_either (read_gpt_data dev true g) (read_gpt_data dev false g)
