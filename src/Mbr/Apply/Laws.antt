-- ===== src/Mbr/Apply/Laws.antt =====
-- What editdisklbl/diskconfig.c does with a configuration, in test mode and after it was processed.
use platform_bootable_iago.Base.{
  ℕ, ◌≤◌, ◌≡◌, refl, ap, ◌∙◌, sym, arith, Bool, true, false, List, [], ◌∷◌, Option, none, some,
  ◌==◌, length, slice, replicate, length-replicate, u32, ◌+◌,
}
use mathlib.Core.Path.{subst}
use platform_bootable_iago.Mbr.{PartInfo, DiskInfo, WriteItem, config_mbr, wlist_commit}
use platform_bootable_iago.Mbr.Commit.{placed_from, len_lba}
use platform_bootable_iago.Mbr.Device.{Committed, config_mbr-commit}
use platform_bootable_iago.Mbr.Validate.{Node, regular, validate, disk_size, parts_fit, is_block}
use platform_bootable_iago.Mbr.Validate.Laws.{sized, validate-sized, validate-true}
use platform_bootable_iago.Mbr.Apply.{
  part_scheme_mbr, Configured, validate_and_config, processed, process_disk_config,
  apply_disk_config, sync_ptable, finish, applied,
}
use platform_bootable_iago.Mbr.Apply.Again.{moved, config_mbr_again}
use platform_bootable_iago.Mbr.Apply.Second.{
  file_size_again, parts_fit_placed, done, configure-some, configure_again, validate_and_config-eq,
  second_run, regular_size, processed-some,
}

-- In test mode a commit writes nothing.
commit_test : (ws : List WriteItem) (dev : List ℕ) → wlist_commit ws true dev ≡ (true, dev)
unfolding wlist_commit
commit_test [] dev = refl
commit_test (w ∷ ws) dev = commit_test ws dev

-- In test mode `apply_disk_config` leaves the device as it was, reports what
-- `process_disk_config` reports, and leaves the same configuration.
pub apply_disk_config-test :
    (node : Node) (dinfo : DiskInfo) (dev : List ℕ)
    → apply_disk_config node dinfo true dev
      ≡ ((process_disk_config node dinfo).0, (process_disk_config node dinfo).1, dev)
unfolding apply_disk_config process_disk_config
apply_disk_config-test node dinfo dev = go (validate_and_config node dinfo).lst
  where
    c : Configured
    c = validate_and_config node dinfo

    go :
        (r : Option (List WriteItem))
        → applied node c.dinfo true dev r ≡ ((processed c r).0, (processed c r).1, dev)
    go none = refl
    go (some wr) = rw (commit_test wr dev) refl

-- A run of `validate_and_config` that gives a list, with what it found on its way.
pub record Run (node : Node) (dinfo : DiskInfo) (wr : List WriteItem) : Type 0 where
  pub opens : node.opens ≡ true
  pub stats : node.stats ≡ true
  pub size : ℕ
  pub num_lba : ℕ
  pub known : disk_size node.kind node dinfo ≡ some (size, num_lba)
  pub fit : parts_fit node (sized dinfo num_lba) size ≡ true
  pub mbr : (dinfo.scheme == part_scheme_mbr) ≡ true
  pub parts : List PartInfo
  pub listed : config_mbr (sized dinfo num_lba) ≡ some (wr, parts)
  pub result : validate_and_config node dinfo ≡ done (sized dinfo num_lba) wr parts

pub validate_and_config-Run :
    (node : Node) (dinfo : DiskInfo) (wr : List WriteItem)
    → (validate_and_config node dinfo).lst ≡ some wr
    → Run node dinfo wr
validate_and_config-Run node dinfo wr e =
    let first = validate_and_config-eq node dinfo _ _ refl in
    let valid =
      (configure-some (validate node dinfo).0 (validate node dinfo).1 wr
        (sym (ap (λ c. c.lst) first) ∙ e)).0 in
    let (opens, stats, (size, n, known, fit)) = validate-true node dinfo valid in
    let once =
      validate_and_config-eq node dinfo (sized dinfo n) true
        (validate-sized node dinfo size n opens stats known ∙ ap (λ b. (sized dinfo n, b)) fit) in
    let (valid', mbr, (parts, listed, same)) =
      configure-some (sized dinfo n) true wr (sym (ap (λ c. c.lst) once) ∙ e) in
    record {
      opens = opens;
      stats = stats;
      size = size;
      num_lba = n;
      known = known;
      fit = fit;
      mbr = mbr;
      parts = parts;
      listed = listed;
      result = once ∙ same;
    }

pub places_of :
    (s : DiskInfo) (wr : List WriteItem) (parts : List PartInfo)
    → length s.part_lst ≤ 4
    → config_mbr s ≡ some (wr, parts)
    → parts ≡ placed_from s s.part_lst s.skip_lba
places_of s wr parts few listed =
    (config_mbr-commit s wr parts (replicate 512 0) (omega (arith, length-replicate {A = ℕ} 512 0))
      few listed).0

-- What a first run leaves for a regular file of at most four partitions.
configured-again :
    (node : Node) (dinfo : DiskInfo) (wr : List WriteItem)
    → node.kind ≡ regular
    → length dinfo.part_lst ≤ 4
    → (validate_and_config node dinfo).lst ≡ some wr
    → validate_and_config node (validate_and_config node dinfo).dinfo
      ≡ validate_and_config node dinfo
configured-again node dinfo wr reg few e =
    let r = validate_and_config-Run node dinfo wr e in
    let s = sized dinfo r.num_lba in
    let places = places_of s wr r.parts few r.listed in
    let (size', lbas) =
      file_size_again node dinfo r.size r.num_lba r.parts
        (sym (regular_size node dinfo reg) ∙ r.known) in
    ap (λ c. validate_and_config node c.dinfo) r.result
    ∙ second_run node s size' wr r.parts r.opens r.stats reg lbas
        (subst (λ ps. parts_fit node (moved s ps) size' ≡ true) (sym places)
          (parts_fit_placed node s r.size size' reg r.fit))
        (configure_again s wr r.parts r.mbr (config_mbr_again s wr r.parts few places r.listed))
    ∙ sym r.result

-- For a regular file and at most four partitions: once `process_disk_config` has succeeded,
-- `apply_disk_config` on the configuration that it left does to the file, and gives back, exactly
-- what it would have without `process_disk_config` before it.
pub apply_disk_config-process :
    (node : Node) (dinfo : DiskInfo) (test : Bool) (dev : List ℕ)
    → node.kind ≡ regular
    → length dinfo.part_lst ≤ 4
    → (process_disk_config node dinfo).0 ≡ true
    → apply_disk_config node (process_disk_config node dinfo).1 test dev
      ≡ apply_disk_config node dinfo test dev
unfolding process_disk_config apply_disk_config
apply_disk_config-process node dinfo test dev reg few e =
    let c = validate_and_config node dinfo in
    let (wr, some_wr, left) = processed-some c c.lst e in
    ap (λ d. let c' = validate_and_config node d in applied node c'.dinfo test dev c'.lst) left
    ∙ ap (λ (c' : Configured). applied node c'.dinfo test dev c'.lst)
        (configured-again node dinfo wr reg few some_wr)

placed_from-moved :
    (s : DiskInfo) (qs ps : List PartInfo) (l : ℕ)
    → placed_from (moved s qs) ps l ≡ placed_from s ps l
placed_from-moved s qs [] l = refl
placed_from-moved s qs (p ∷ ps) l =
    ap (◌∷◌ (record p { start_lba = l })) (placed_from-moved s qs ps (u32 (l + len_lba s p l)))

-- What `apply_disk_config` does to a regular file.
abbrev pub Applied : Node → DiskInfo → List ℕ → DiskInfo → Type 0
Applied node dinfo dev d =
    (d.part_lst ≡ placed_from d dinfo.part_lst dinfo.skip_lba)
    × ((dev' : List ℕ) × (apply_disk_config node dinfo false dev ≡ (true, d, dev'))
        × Committed 512 dev dev'
        × (slice 510 2 dev' ≡ 0x55 ∷ 0xAA ∷ []))

file_synced : (node : Node) → node.stats ≡ true → node.kind ≡ regular → sync_ptable node ≡ true
unfolding sync_ptable
file_synced node stats reg = rw (stats, ap is_block reg) refl

pub apply_disk_config-Applied :
    (node : Node) (dinfo : DiskInfo) (dev : List ℕ)
    → node.kind ≡ regular
    → length dinfo.part_lst ≤ 4
    → 512 ≤ length dev
    → (process_disk_config node dinfo).0 ≡ true
    → Applied node dinfo dev (process_disk_config node dinfo).1
unfolding process_disk_config apply_disk_config
apply_disk_config-Applied node dinfo dev reg few long ok =
    let c = validate_and_config node dinfo in
    let (wr, some_wr, left) = processed-some c c.lst ok in
    let r = validate_and_config-Run node dinfo wr some_wr in
    let s = sized dinfo r.num_lba in
    let (places, (dev', written, kept, sig, _)) =
      config_mbr-commit s wr r.parts dev long few r.listed in
    subst (Applied node dinfo dev) (sym (left ∙ ap (λ x. x.dinfo) r.result)) (
      places ∙ sym (placed_from-moved s r.parts s.part_lst s.skip_lba),
      (
        dev',
        ap (λ (x : Configured). applied node x.dinfo false dev x.lst) r.result
            ∙ ap (finish node (moved s r.parts) false) written
            ∙ ap (λ b. (b, moved s r.parts, dev')) (file_synced node r.stats reg),
        kept,
        sig,
      ),
    )
