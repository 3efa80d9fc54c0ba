-- ===== src/Mbr/Program/Laws.antt =====
-- What the program editdisklbl/editdisklbl.c leaves in the image.
use platform_bootable_iago.Base.{ℕ, ◌*◌, ◌^◌, ◌<◌, ◌≡◌, List, [], ◌∷◌, some, patch}
use platform_bootable_iago.Mbr.{DiskInfo}
use platform_bootable_iago.Mbr.Image.Laws.{Reads, Writes}
use platform_bootable_iago.Mbr.Program.{Host, PfMap, start_of, or_old}

module _ (host : Host) where
  -- The files are there, and no call on them fails or writes less than it should.
  abbrev pub HasFile : PfMap → Type 0
  HasFile m = (bytes : List ℕ) × (host.content m.filename ≡ some bytes)

  abbrev pub IsCalm : Type 0
  IsCalm = (n : ℕ) → Reads (host.reads n) × Writes (host.writes n)

  -- The partition for a file begins below 4 GiB.
  abbrev pub IsLow : DiskInfo → PfMap → Type 0
  IsLow dinfo m = start_of dinfo.part_lst m.pinfo * dinfo.sect_size < 2 ^ 32

  -- The images over the device, each at the first byte of its partition.
  abbrev pub place_all : DiskInfo → List PfMap → List ℕ → List ℕ
  place_all dinfo [] dev = dev
  place_all dinfo (m ∷ ms) dev = place_all dinfo ms (
      patch (start_of dinfo.part_lst m.pinfo * dinfo.sect_size)
        (or_old [] (host.content m.filename)) dev)
