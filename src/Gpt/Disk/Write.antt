-- ===== src/Gpt/Disk/Write.antt =====
-- What `gpt_write` of libgpt/gpt.c leaves on the disk.
use platform_bootable_iago.Base.{
  ℕ, ◌+◌, ◌-◌, ◌*◌, ◌≤◌, ◌≡◌, refl, ap, ◌∙◌, arith, List, [], length, splice, length-splice,
}
use platform_bootable_iago.Device.{Device, Status, success, write_at, and_then}
use platform_bootable_iago.Device.Laws.{Reachable, write_at-splice}
use platform_bootable_iago.Gpt.Header.{IsHeader, encode_header}
use platform_bootable_iago.Gpt.Table.{Gpt}
use platform_bootable_iago.Gpt.Disk.{
  Host, protective_mbr, sealed, write_gpt_to_disk, backup_copy, gpt_write,
}
use platform_bootable_iago.Gpt.Disk.Layout.{Apart, written}
use platform_bootable_iago.Gpt.Disk.Copies.{
  Fits, take-entries, length-protective_mbr, length-sealed, write_gpt_to_disk_eq, placed-IsHeader,
  first_copy, second_copy, mul_mono, wide, primary_copy-eq, backup_copy-eq, offsets,
}

module _ (host : Host) (g : Gpt) (dev : Device) (k : ℕ) where
  -- The disk with the MBR, both headers and both arrays in their places.
  abbrev pub disk_after : List ℕ
  disk_after =
      written dev.bytes (protective_mbr g.sectors) (encode_header (sealed host (first_copy g)))
        g.entries (encode_header (sealed host (second_copy g k))) g.entries 440 g.lba_size
        (2 * g.lba_size) ((g.sectors - 1 - k) * g.lba_size) ((g.sectors - 1) * g.lba_size)

  module _ (f : Fits g dev k) where
    pub length-array : length g.entries ≡ k * g.lba_size
    length-array = f.table.room ∙ f.blocks

    pub first-IsHeader : IsHeader (first_copy g).header
    first-IsHeader =
        let small = f.small in
        let enough = f.enough in
        placed-IsHeader g 1 (g.sectors - 1) 2 f.header (omega arith) (omega (arith, wide g dev k f))
          (omega arith)

    pub second-IsHeader : IsHeader (second_copy g k).header
    second-IsHeader =
        let small = f.small in
        let enough = f.enough in
        placed-IsHeader g (g.sectors - 1) 1 (g.sectors - 1 - k) f.header
          (omega (arith, wide g dev k f)) (omega arith) (omega (arith, wide g dev k f))

    pub parts_Apart :
        Apart dev.bytes
          (protective_mbr g.sectors)
          (encode_header (sealed host (first_copy g)))
          g.entries
          (encode_header (sealed host (second_copy g k)))
          g.entries
          440
          g.lba_size
          (2 * g.lba_size)
          ((g.sectors - 1 - k) * g.lba_size)
          ((g.sectors - 1) * g.lba_size)
    parts_Apart =
        let o = offsets g dev k f in
        let block = f.block in
        let room = f.room in
        omega (
          arith,
          length-array,
          length-protective_mbr g.sectors,
          length-sealed host (first_copy g) first-IsHeader,
          length-sealed host (second_copy g k) second-IsHeader,
        )

    -- The device after the first copy, and after both.
    abbrev half : Device
    half = record dev {
      bytes =
          splice (2 * g.lba_size) g.entries
            (splice g.lba_size (encode_header (sealed host (first_copy g))) dev.bytes);
      sched = [];
    }

    abbrev both : Device
    both = record dev {
      bytes = splice ((g.sectors - 1 - k) * g.lba_size) g.entries (
          splice ((g.sectors - 1) * g.lba_size) (encode_header (sealed host (second_copy g k)))
            half.bytes);
      sched = [];
    }

    length-half : length half.bytes ≡ length dev.bytes
    length-half =
        length-splice (2 * g.lba_size) g.entries
          (splice g.lba_size (encode_header (sealed host (first_copy g))) dev.bytes)
        ∙ length-splice g.lba_size (encode_header (sealed host (first_copy g))) dev.bytes

    length-both : length both.bytes ≡ length dev.bytes
    length-both =
        length-splice ((g.sectors - 1 - k) * g.lba_size) g.entries (
          splice ((g.sectors - 1) * g.lba_size) (encode_header (sealed host (second_copy g k)))
            half.bytes)
        ∙ length-splice ((g.sectors - 1) * g.lba_size)
            (encode_header (sealed host (second_copy g k))) half.bytes
        ∙ length-half

    reach :
        (d : Device) (off n : ℕ)
        → d.opens ≡ dev.opens
        → length d.bytes ≡ length dev.bytes
        → off + n ≤ g.sectors * g.lba_size
        → Reachable d off n
    reach d off n same len fits = record {
      open_ok = same ∙ f.open_ok;
      positive = let small = f.small in omega arith;
      inside = let room = f.room in omega arith;
    }

    write_first : dev.sched ≡ [] → write_gpt_to_disk host (first_copy g) dev ≡ (success, half)
    write_first calm =
        let o = offsets g dev k f in
        let a = parts_Apart in
        write_gpt_to_disk_eq host (first_copy g) dev g.lba_size (2 * g.lba_size) o.header1 o.array1
          (take-entries f.table) (reach dev g.lba_size _ refl refl (omega arith))
          (reach dev (2 * g.lba_size) _ refl refl (omega arith)) calm

    write_second : write_gpt_to_disk host (second_copy g k) half ≡ (success, both)
    write_second =
        let o = offsets g dev k f in
        let a = parts_Apart in
        write_gpt_to_disk_eq host (second_copy g k) half ((g.sectors - 1) * g.lba_size)
          ((g.sectors - 1 - k) * g.lba_size) o.header2 o.array2 (take-entries f.table)
          (reach half ((g.sectors - 1) * g.lba_size) _ refl length-half (
            let block = f.block in
            omega (arith, length-sealed host (second_copy g k) second-IsHeader)))
          (reach half ((g.sectors - 1 - k) * g.lba_size) _ refl length-half (omega arith)) refl

    -- On a disk that has room for the table, where no write call is short, interrupted or failing,
    -- `gpt_write` succeeds and puts the protective
    -- MBR, both headers with their checksums and both arrays in place; nothing else changes.
    pub gpt_write_lem :
        dev.sched ≡ []
        → gpt_write host g dev ≡ (success, record dev { bytes = disk_after; sched = [] })
    unfolding gpt_write
    gpt_write_lem calm =
        ap (λ p. and_then (write_gpt_to_disk host p dev) rest) (primary_copy-eq g dev k f)
        ∙ ap (λ r. and_then r rest) (write_first calm)
        ∙ ap (λ p. and_then (write_gpt_to_disk host p half) last) (backup_copy-eq g dev k f)
        ∙ ap (λ r. and_then r last) write_second
        ∙ write_at-splice both 440 (protective_mbr g.sectors)
            (reach both 440 _ refl length-both (
              let block = f.block in
              let enough = f.enough in
              omega (
                arith,
                length-protective_mbr g.sectors,
                mul_mono g dev k f 3 g.sectors (omega arith),
              )))
            refl
      where
        last : Device → Status × Device
        last d = write_at d 440 (protective_mbr g.sectors)

        rest : Device → Status × Device
        rest d = and_then (write_gpt_to_disk host (backup_copy g) d) last
