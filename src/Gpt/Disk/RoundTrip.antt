-- ===== src/Gpt/Disk/RoundTrip.antt =====
-- `gpt_read` of libgpt/gpt.c after `gpt_write`, and after damage to the first copy.
use platform_bootable_iago.Base.{
  ℕ, ◌+◌, ◌-◌, ◌*◌, ◌≤◌, ◌≡◌, ◌≢◌, refl, ap, ◌∙◌, sym, arith, List, [], ◌∷◌, length, take, slice,
  splice, true, false, ◌==◌, u64, get_or, length-splice, slice-splice_before, slice-splice_after,
  slice-splice_self,
}
use platform_bootable_iago.Device.{Device, Outcome, err, Io, resume, read_at, einval, success}
use platform_bootable_iago.Device.Laws.{Calm, Reachable, read_at-slice}
use platform_bootable_iago.Gpt.Header.{Header, encode_header, decode_header, efi_part, header_bytes}
use platform_bootable_iago.Gpt.Header.Laws.{sig-decode_header}
use platform_bootable_iago.Gpt.Table.{Gpt}
use platform_bootable_iago.Gpt.Disk.{
  Host, protective_mbr, sealed, read_entries, read_gpt_data, gpt_read, check, ◌>>◌, read_either,
  gpt_write,
}
use platform_bootable_iago.Gpt.Disk.Layout.{
  slice-mbr, slice-h1, slice-a1, slice-h2, slice-a2, length-written, slice-slice,
}
use platform_bootable_iago.Gpt.Disk.Write.{
  first-IsHeader, second-IsHeader, disk_after, parts_Apart, gpt_write_lem, length-array,
}
use platform_bootable_iago.Gpt.Disk.Copies.{
  Fits, first_copy, second_copy, length-protective_mbr, length-sealed, offsets, last_block,
  mul_mono,
}
use platform_bootable_iago.Gpt.Disk.Read.{
  Ends, >>=-Ends, check-Ends, Sound, start_of, read_gpt_data-Ends, read_either-first,
  read_either-second, read_entries-sig,
}
use platform_bootable_iago.Gpt.Disk.Sealed.{placed-IsTable, sealed-Sound}

module _ (host : Host) (g : Gpt) (dev : Device) (k : ℕ) (f : Fits g dev k)
    (sig : g.header.sig ≡ efi_part) where
  -- The table in memory before it is read: that of a disk of the same geometry.
  abbrev pub blank : Header → List ℕ → Gpt
  blank h0 es0 = record g { header = h0; entries = es0 }

  -- A disk of the same size on which the type in the MBR and the second copy are what `gpt_write`
  -- wrote.
  record Backed (d : Device) : Type 0 where
    open_ok : d.opens ≡ true
    size : length d.bytes ≡ length dev.bytes
    type_at : slice (0x1be + 0x4) 1 d.bytes ≡ 0xEE ∷ []
    header2_at :
        slice ((g.sectors - 1) * g.lba_size) header_bytes d.bytes
        ≡ encode_header (sealed host (second_copy g k))
    array2_at : slice ((g.sectors - 1 - k) * g.lba_size) (length g.entries) d.bytes ≡ g.entries

  abbrev pub written_device : Device
  written_device = record dev { bytes = disk_after host g dev k; sched = [] }

  reach :
      (d : Device) (off n : ℕ)
      → d.opens ≡ true
      → length d.bytes ≡ length dev.bytes
      → off + n ≤ g.sectors * g.lba_size
      → Reachable d off n
  reach d off n open_ok size fits =
      let small = f.small in
      let room = f.room in
      record { open_ok = open_ok; positive = omega arith; inside = omega arith }

  -- The window of the first header, and that of the second, inside the disk.
  inside1 : g.lba_size + header_bytes ≤ g.sectors * g.lba_size
  inside1 =
      let o = offsets g dev k f in
      let block = f.block in
      omega (arith, mul_mono g dev k f 2 (g.sectors - 1) (let enough = f.enough in omega arith))

  inside2 : (g.sectors - 1) * g.lba_size + header_bytes ≤ g.sectors * g.lba_size
  inside2 = let o = offsets g dev k f in let block = f.block in omega arith

  array1_inside : 2 * g.lba_size + length g.entries ≤ g.sectors * g.lba_size
  array1_inside = let o = offsets g dev k f in omega (arith, length-array host g dev k f)

  array2_inside : (g.sectors - 1 - k) * g.lba_size + length g.entries ≤ g.sectors * g.lba_size
  array2_inside = let o = offsets g dev k f in omega (arith, length-array host g dev k f)

  type_in_mbr : slice 10 1 (protective_mbr g.sectors) ≡ 0xEE ∷ []
  unfolding protective_mbr
  type_in_mbr = refl

  len1 : length (encode_header (sealed host (first_copy g))) ≡ header_bytes
  len1 = length-sealed host (first_copy g) (first-IsHeader host g dev k f)

  len2 : length (encode_header (sealed host (second_copy g k))) ≡ header_bytes
  len2 = length-sealed host (second_copy g k) (second-IsHeader host g dev k f)

  written-Backed : Backed written_device
  written-Backed = record {
    open_ok = f.open_ok;
    size = length-written _ _ _ _ _ _ _ _ _ _ _ (parts_Apart host g dev k f);
    type_at =
        sym (slice-slice 10 1 440 72 (disk_after host g dev k) (omega arith))
        ∙ ap (λ n. slice 10 1 (slice 440 n (disk_after host g dev k)))
            (sym (length-protective_mbr g.sectors))
        ∙ ap (slice 10 1) (slice-mbr _ _ _ _ _ _ _ _ _ _ _ (parts_Apart host g dev k f))
        ∙ type_in_mbr;
    header2_at =
        ap (λ n. slice ((g.sectors - 1) * g.lba_size) n (disk_after host g dev k)) (sym len2)
        ∙ slice-h2 _ _ _ _ _ _ _ _ _ _ _ (parts_Apart host g dev k f);
    array2_at = slice-a2 _ _ _ _ _ _ _ _ _ _ _ (parts_Apart host g dev k f);
  }

  first_Sound :
      (h0 : Header) (es0 : List ℕ)
      → Sound host written_device
          (blank h0 es0)
          g.lba_size
          (2 * g.lba_size)
          (sealed host (first_copy g))
          g.entries
  first_Sound h0 es0 =
      let o = offsets g dev k f in
      sealed-Sound host (first_copy g) written_device h0 es0 g.lba_size (2 * g.lba_size)
        (placed-IsTable g 1 (g.sectors - 1) 2 f.table) (first-IsHeader host g dev k f) sig o.array1
        (ap (λ n. slice g.lba_size n (disk_after host g dev k)) (sym len1)
          ∙ slice-h1 _ _ _ _ _ _ _ _ _ _ _ (parts_Apart host g dev k f))
        (slice-a1 _ _ _ _ _ _ _ _ _ _ _ (parts_Apart host g dev k f))
        (reach written_device g.lba_size header_bytes f.open_ok written-Backed.size inside1)
        (reach written_device (2 * g.lba_size) (length g.entries) f.open_ok written-Backed.size
          array1_inside)

  second_Sound :
      (d : Device) (h0 : Header) (es0 : List ℕ)
      → Backed d
      → Sound host d
          (blank h0 es0)
          ((g.sectors - 1) * g.lba_size)
          ((g.sectors - 1 - k) * g.lba_size)
          (sealed host (second_copy g k))
          g.entries
  second_Sound d h0 es0 b =
      let o = offsets g dev k f in
      sealed-Sound host (second_copy g k) d h0 es0 ((g.sectors - 1) * g.lba_size)
        ((g.sectors - 1 - k) * g.lba_size)
        (placed-IsTable g (g.sectors - 1) 1 (g.sectors - 1 - k) f.table)
        (second-IsHeader host g dev k f) sig o.array2 b.header2_at b.array2_at
        (reach d ((g.sectors - 1) * g.lba_size) header_bytes b.open_ok b.size inside2)
        (reach d ((g.sectors - 1 - k) * g.lba_size) (length g.entries) b.open_ok b.size
          array2_inside)

  -- What `gpt_read` gives from the first copy, and from the second.
  abbrev pub first_found : Gpt
  first_found = record g { header = sealed host (first_copy g) }

  abbrev pub second_found : Gpt
  second_found = record g { header = sealed host (second_copy g k) }

  module _ (h0 : Header) (es0 : List ℕ) where
    -- `gpt_read` on a disk with a protective MBR goes on to the two copies.
    gpt_read-Ends :
        (d : Device) (s : List Outcome) (r : Gpt)
        → Backed d
        → Calm s
        → ((t : List Outcome)
            → Calm t
            → Ends
                (read_either
                  (read_gpt_data host d true (blank h0 es0))
                  (read_gpt_data host d false (blank h0 es0)))
                t
                r)
        → Ends (gpt_read host d (blank h0 es0)) s r
    unfolding gpt_read
    gpt_read-Ends d s r b calm next =
        >>=-Ends (read_at d (0x1be + 0x4) 1) with_type s (0xEE ∷ []) r
          (let (t, e, calm') = read_at-slice d (0x1be + 0x4) 1 s in_mbr calm in
            (t, rw (e, b.type_at), calm'))
          (λ t calm'. check-Ends true either t r refl (next t calm'))
      where
        either : Io Gpt
        either =
            read_either (read_gpt_data host d true (blank h0 es0))
              (read_gpt_data host d false (blank h0 es0))

        with_type : List ℕ → Io Gpt
        with_type type = check (get_or type 0 0 == 0xee) >> either

        in_mbr : Reachable d (0x1be + 0x4) 1
        in_mbr =
            reach d (0x1be + 0x4) 1 b.open_ok b.size (let block = f.block in omega (arith, inside1))

    second_start : start_of host false (blank h0 es0) ≡ (g.sectors - 1) * g.lba_size
    second_start =
        let o = offsets g dev k f in
        ap (λ n. u64 (n * g.lba_size)) (last_block g dev k f) ∙ o.header2

    -- For a well-formed table whose array takes whole blocks, on a disk that has room for it, where no
    -- write call is short, interrupted or failing: `gpt_write` succeeds, and `gpt_read` of the disk then gives the array that was written, and
    -- its header with the addresses of the first copy and the checksums, whatever the table in
    -- memory held before; the calls of the read may be short or interrupted.
    pub gpt_read-gpt_write :
        (s : List Outcome)
        → dev.sched ≡ []
        → Calm s
        → (gpt_write host g dev ≡ (success, written_device))
          × Ends (gpt_read host written_device (blank h0 es0)) s first_found
    gpt_read-gpt_write s quiet calm = (
      gpt_write_lem host g dev k f quiet,
      gpt_read-Ends written_device s first_found written-Backed calm λ t calm'.
          read_either-first (read_gpt_data host written_device true (blank h0 es0))
            (read_gpt_data host written_device false (blank h0 es0)) t first_found
            (read_gpt_data-Ends host written_device (blank h0 es0) g.lba_size (2 * g.lba_size)
              (sealed host (first_copy g)) g.entries (first_Sound h0 es0) true t
              (let o = offsets g dev k f in o.header1) calm'),
    )

    module _ (junk : List ℕ) (long : 8 ≤ length junk)
        (short : g.lba_size + length junk ≤ (g.sectors - 1 - k) * g.lba_size)
        (no_sig : take 8 junk ≢ efi_part) where
      -- The written disk with the first copy overwritten from its header on.
      abbrev pub damaged : Device
      damaged = record written_device { bytes = splice g.lba_size junk (disk_after host g dev k) }

      damaged-Backed : Backed damaged
      damaged-Backed =
          let b = written-Backed in
          let block = f.block in
          let o = offsets g dev k f in
          record {
            open_ok = f.open_ok;
            size = length-splice g.lba_size junk (disk_after host g dev k) ∙ b.size;
            type_at =
                slice-splice_before (0x1be + 0x4) 1 g.lba_size junk (disk_after host g dev k)
                  (omega arith)
                ∙ b.type_at;
            header2_at =
                slice-splice_after ((g.sectors - 1) * g.lba_size) header_bytes g.lba_size junk
                  (disk_after host g dev k) (omega arith)
                ∙ b.header2_at;
            array2_at =
                slice-splice_after ((g.sectors - 1 - k) * g.lba_size) (length g.entries) g.lba_size
                  junk (disk_after host g dev k) short
                ∙ b.array2_at;
          }

      damaged_sig : take 8 (slice g.lba_size header_bytes damaged.bytes) ≡ take 8 junk
      damaged_sig =
          slice-slice 0 8 g.lba_size header_bytes damaged.bytes (omega arith)
          ∙ sym (slice-slice 0 8 g.lba_size (length junk) damaged.bytes (omega arith))
          ∙ ap (take 8) (
              slice-splice_self g.lba_size junk (disk_after host g dev k) (
                let o = offsets g dev k f in
                let b = written-Backed in let room = f.room in omega (arith, b.size)))

      first_fails :
          (s : List Outcome)
          → Calm s
          → (t : List Outcome) × (read_gpt_data host damaged true (blank h0 es0) s
              ≡ (err einval, t))
            × Calm t
      unfolding read_gpt_data
      first_fails s calm =
          let raw = slice g.lba_size header_bytes damaged.bytes in
          let b = damaged-Backed in
          let (t, e, calm') =
            read_at-slice damaged g.lba_size header_bytes s
              (reach damaged g.lba_size header_bytes b.open_ok b.size inside1) calm in
          (
            t,
            ap (λ off. resume (read_at damaged off header_bytes s) next)
                  ((offsets g dev k f).header1)
                ∙ ap (λ r. resume r next) e
                ∙ read_entries-sig host damaged (blank h0 es0) (decode_header raw) t
                    (λ same. no_sig (sym damaged_sig ∙ sym (sig-decode_header raw) ∙ same)),
            calm',
          )
        where
          next : List ℕ → Io Gpt
          next raw = read_entries host damaged (blank h0 es0) (decode_header raw)

      -- For a well-formed table whose array takes whole blocks, on a disk that has room for it, where
      -- no write call is short, interrupted or failing: `gpt_write` succeeds, and where the first
      -- copy's header and any part of what lies behind it but the second copy is then overwritten, so
      -- that the signature is lost, `gpt_read` gives the array that was written, with the header of
      -- the second copy; the calls of the read may be short or interrupted.
      pub gpt_read-damaged :
          (s : List Outcome)
          → dev.sched ≡ []
          → Calm s
          → (gpt_write host g dev ≡ (success, written_device))
            × Ends (gpt_read host damaged (blank h0 es0)) s second_found
      gpt_read-damaged s quiet calm = (
        gpt_write_lem host g dev k f quiet,
        gpt_read-Ends damaged s second_found damaged-Backed calm λ t calm'.
            let (u, fails, calm'') = first_fails t calm' in
            read_either-second (read_gpt_data host damaged true (blank h0 es0))
              (read_gpt_data host damaged false (blank h0 es0)) t u einval second_found fails
              (read_gpt_data-Ends host damaged (blank h0 es0) ((g.sectors - 1) * g.lba_size)
                ((g.sectors - 1 - k) * g.lba_size) (sealed host (second_copy g k)) g.entries
                (second_Sound damaged h0 es0 damaged-Backed) false u second_start calm''),
      )
