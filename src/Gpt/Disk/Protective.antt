-- ===== src/Gpt/Disk/Protective.antt =====
-- The protective MBR that libgpt/gpt.c `gpt_write` leaves on the disk.
use platform_bootable_iago.Base.{
  ℕ, ◌+◌, ◌-◌, ◌*◌, ◌^◌, ◌≤◌, ◌<◌, ◌≡◌, refl, ap, ◌∙◌, sym, arith, List, [], ◌∷◌, min, of_le, slice,
  splice, slice-splice_before, replicate,
}
use platform_bootable_iago.Device.{Device, success}
use platform_bootable_iago.Gpt.Header.{encode_header}
use platform_bootable_iago.Gpt.Table.{Gpt}
use platform_bootable_iago.Gpt.Disk.{Host, protective_mbr, sealed, gpt_write}
use platform_bootable_iago.Gpt.Disk.Layout.{slice-mbr, slice-slice}
use platform_bootable_iago.Gpt.Disk.Copies.{
  Fits, first_copy, second_copy, length-protective_mbr, offsets, mul_mono,
}
use platform_bootable_iago.Gpt.Disk.Write.{disk_after, parts_Apart, gpt_write_lem}

-- A disk of `sectors` blocks protected from programs that know no GPT: the boot code is what it was;
-- the first entry of the MBR has the type 0xEE and covers the disk from block 1 on, as far as 32 bits
-- count; the other three are empty; and the MBR ends with the signature.
pub record Protects (before after : List ℕ) (sectors : ℕ) : Type 0 where
  pub boot_code : slice 0 440 after ≡ slice 0 440 before
  pub type : slice 450 1 after ≡ 0xEE ∷ []
  pub start : of_le (slice 454 4 after) ≡ 1
  pub size : of_le (slice 458 4 after) ≡ min (sectors - 1) (2 ^ 32 - 1)
  pub others : slice 462 48 after ≡ replicate 48 0
  pub signature : slice 510 2 after ≡ 0x55 ∷ 0xAA ∷ []

mbr_type : (n : ℕ) → slice 10 1 (protective_mbr n) ≡ 0xEE ∷ []
unfolding protective_mbr replicate
mbr_type n = refl

mbr_start : (n : ℕ) → of_le (slice 14 4 (protective_mbr n)) ≡ 1
unfolding protective_mbr replicate
mbr_start n = refl

mbr_size :
    (n : ℕ) → 1 ≤ n → n < 2 ^ 63 → of_le (slice 18 4 (protective_mbr n)) ≡ min (n - 1) (2 ^ 32 - 1)
unfolding protective_mbr replicate
mbr_size n some_block small = omega arith

mbr_others : (n : ℕ) → slice 22 48 (protective_mbr n) ≡ replicate 48 0
unfolding protective_mbr replicate
mbr_others n = refl

mbr_signature : (n : ℕ) → slice 70 2 (protective_mbr n) ≡ 0x55 ∷ 0xAA ∷ []
unfolding protective_mbr replicate
mbr_signature n = refl

module _ (host : Host) (g : Gpt) (dev : Device) (k : ℕ) (f : Fits g dev k) where
  -- A window of the MBR.
  window :
      (i n : ℕ)
      → i + n ≤ 72
      → slice (440 + i) n (disk_after host g dev k) ≡ slice i n (protective_mbr g.sectors)
  window i n inside =
      sym (slice-slice i n 440 72 (disk_after host g dev k) inside)
      ∙ ap (λ m. slice i n (slice 440 m (disk_after host g dev k)))
          (sym (length-protective_mbr g.sectors))
      ∙ ap (slice i n) (slice-mbr _ _ _ _ _ _ _ _ _ _ _ (parts_Apart host g dev k f))

  boot_code_kept : slice 0 440 (disk_after host g dev k) ≡ slice 0 440 dev.bytes
  boot_code_kept =
      let o = offsets g dev k f in
      let block = f.block in
      let enough = f.enough in
      let h1 = encode_header (sealed host (first_copy g)) in
      let h2 = encode_header (sealed host (second_copy g k)) in
      let d1 = splice g.lba_size h1 dev.bytes in
      let d2 = splice (2 * g.lba_size) g.entries d1 in
      let d3 = splice ((g.sectors - 1) * g.lba_size) h2 d2 in
      let d4 = splice ((g.sectors - 1 - k) * g.lba_size) g.entries d3 in
      let one = mul_mono g dev k f 1 (g.sectors - 1) (omega arith) in
      let one' = mul_mono g dev k f 1 (g.sectors - 1 - k) (omega arith) in
      slice-splice_before 0 440 440 (protective_mbr g.sectors) d4 (omega arith)
      ∙ slice-splice_before 0 440 ((g.sectors - 1 - k) * g.lba_size) g.entries d3
          (omega (arith, one'))
      ∙ slice-splice_before 0 440 ((g.sectors - 1) * g.lba_size) h2 d2 (omega (arith, one))
      ∙ slice-splice_before 0 440 (2 * g.lba_size) g.entries d1 (omega arith)
      ∙ slice-splice_before 0 440 g.lba_size h1 dev.bytes (omega arith)

  wide : g.sectors < 2 ^ 63
  wide = let small = f.small in let block = f.block in grind arith

  -- For a well-formed table whose array takes whole blocks, on a disk that has room for it, where no
  -- write call is short, interrupted or failing: `gpt_write` succeeds, and leaves the boot code in the
  -- first block as it was, a protective MBR whose first entry has the type 0xEE and covers the disk
  -- from block 1 on, as far as 32 bits count, three empty entries, and the signature.
  pub gpt_write-Protects :
      dev.sched ≡ []
      → (gpt_write host g dev
          ≡ (success, record dev { bytes = disk_after host g dev k; sched = [] }))
        × Protects dev.bytes (disk_after host g dev k) g.sectors
  gpt_write-Protects quiet = (
    gpt_write_lem host g dev k f quiet,
    record {
      boot_code = boot_code_kept;
      type = window 10 1 (omega arith) ∙ mbr_type g.sectors;
      start = ap of_le (window 14 4 (omega arith)) ∙ mbr_start g.sectors;
      size =
          ap of_le (window 18 4 (omega arith))
          ∙ mbr_size g.sectors (let enough = f.enough in omega arith) wide;
      others = window 22 48 (omega arith) ∙ mbr_others g.sectors;
      signature = window 70 2 (omega arith) ∙ mbr_signature g.sectors;
    },
  )
