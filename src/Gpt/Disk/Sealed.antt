-- ===== src/Gpt/Disk/Sealed.antt =====
-- A sealed header of libgpt/gpt.c passes the tests of `read_gpt_data`.
use platform_bootable_iago.Base.{ℕ, ◌*◌, ◌≡◌, refl, ap, ◌∙◌, sym, arith, List, length, slice, u64}
use mathlib.Core.Path.{subst}
use platform_bootable_iago.Device.{Device}
use platform_bootable_iago.Device.Laws.{Reachable}
use platform_bootable_iago.Gpt.Header.{Header, IsHeader, encode_header, efi_part, header_bytes}
use platform_bootable_iago.Gpt.Table.{Gpt, IsTable}
use platform_bootable_iago.Gpt.Disk.{Host, get_entries_crc32, get_header_crc32, sealed, placed}
use platform_bootable_iago.Gpt.Disk.Copies.{entries_size-eq}
use platform_bootable_iago.Gpt.Disk.Read.{Sound}

pub placed-IsTable :
    (g : Gpt) (current backup start : ℕ) → IsTable g → IsTable (placed g current backup start)
placed-IsTable g current backup start t = record {
  stride = t.stride;
  small = t.small;
  room = t.room;
  bytes = t.bytes;
}

module _ (host : Host) (g : Gpt) where
  -- The header with its checksums has the values that its fields can hold.
  sealed-IsHeader : IsHeader g.header → IsHeader (sealed host g)
  unfolding sealed get_entries_crc32 get_header_crc32
  sealed-IsHeader v = record {
    sig_len = v.sig_len;
    revision_wide = v.revision_wide;
    size_wide = v.size_wide;
    crc_wide = omega arith;
    reserved_wide = v.reserved_wide;
    current_wide = v.current_wide;
    backup_wide = v.backup_wide;
    first_wide = v.first_wide;
    last_wide = v.last_wide;
    guid_ok = v.guid_ok;
    start_wide = v.start_wide;
    num_wide = v.num_wide;
    stride_wide = v.stride_wide;
    pcrc_wide = omega arith;
  }

  -- A sealed table on the disk passes the checks of `read_gpt_data`, whatever the table in memory
  -- was before.
  pub sealed-Sound :
      (d : Device) (h0 : Header) (es0 : List ℕ) (oh oa : ℕ)
      → IsTable g
      → IsHeader g.header
      → g.header.sig ≡ efi_part
      → u64 (g.header.pentry_start_lba * g.lba_size) ≡ oa
      → slice oh header_bytes d.bytes ≡ encode_header (sealed host g)
      → slice oa (length g.entries) d.bytes ≡ g.entries
      → Reachable d oh header_bytes
      → Reachable d oa (length g.entries)
      → Sound host d (record g { header = h0; entries = es0 }) oh oa (sealed host g) g.entries
  unfolding sealed get_entries_crc32 get_header_crc32
  sealed-Sound d h0 es0 oh oa t v sig off header_at array_at header_in array_in = record {
    header = sealed-IsHeader v;
    sig = sig;
    header_at = header_at;
    array_at = ap (λ n. slice oa n d.bytes) (entries_size-eq t) ∙ array_at;
    header_crc = refl;
    array_crc = refl;
    header_in = header_in;
    array_in = subst (Reachable d oa) (sym (entries_size-eq t)) array_in;
    array_off = off;
  }
