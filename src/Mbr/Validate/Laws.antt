-- ===== src/Mbr/Validate/Laws.antt =====
-- What editdisklbl/diskconfig.c `validate` accepts.
use platform_bootable_iago.Base.{
  ℕ, ◌+◌, ◌*◌, ◌^◌, ◌≤◌, ◌<◌, ◌≡◌, ◌≢◌, refl, sym, ◌∙◌, ap, ◌↔◌, arith, Bool, true, false, not,
  ◌&&◌, ◌||◌, [], ◌∷◌, All, Option, none, some, ltb, le→ltb, ◌==◌, if◌then◌else◌, u32,
}
use platform_bootable_iago.Mbr.{PartInfo, DiskInfo, fill}
use platform_bootable_iago.Mbr.Validate.{
  Node, disk_size, total_size, is_block, within, parts_fit, judged, validate,
}
use platform_bootable_iago.Mbr.Validate.Total.{
  IsKnown, FillsLast, need, needs, IsSmall, known_types, need-sized, add_part-sized,
  total_size-some, total_size-after, total_size-Good,
}

abbrev pub sized : DiskInfo → ℕ → DiskInfo
sized dinfo n = record dinfo { num_lba = n }

pub validate-sized :
    (node : Node) (dinfo : DiskInfo) (size n : ℕ)
    → node.opens ≡ true
    → node.stats ≡ true
    → disk_size node.kind node dinfo ≡ some (size, n)
    → validate node dinfo ≡ (sized dinfo n, parts_fit node (sized dinfo n) size)
unfolding validate
validate-sized node dinfo size n opens stats e = rw (e, opens, stats, validate) refl

-- What a validated configuration says of the node.
pub validate-true :
    (node : Node) (dinfo : DiskInfo)
    → (validate node dinfo).1 ≡ true
    → (node.opens ≡ true)
      × (node.stats ≡ true)
      × ((size : ℕ) × (n : ℕ) × (disk_size node.kind node dinfo ≡ some (size, n))
          × (parts_fit node (sized dinfo n) size ≡ true))
unfolding validate
validate-true node dinfo h = go node.opens node.stats (disk_size node.kind node dinfo) h
  where
    go :
        (o t : Bool) (r : Option (ℕ × ℕ))
        → (if not o || not t then (dinfo, false) else judged node dinfo r).1 ≡ true
        → (o ≡ true)
          × (t ≡ true)
          × ((size : ℕ) × (n : ℕ) × (r ≡ some (size, n))
              × (parts_fit node (sized dinfo n) size ≡ true))
    go true true none e = ground arith
    go true true (some (size, n)) e = (refl, refl, (size, n, refl, e))
    go true false r e = ground arith
    go false t r e = ground arith

-- The bytes before the partitions.
abbrev pub skipped : DiskInfo → ℕ
skipped dinfo = dinfo.skip_lba * dinfo.sect_size

fit-block : (b : Bool) (size t : ℕ) → not (b && ltb size t) ≡ true → b ≡ true → t ≤ size
fit-block b size t h e = ground arith

fit-good : (b : Bool) (size t : ℕ) → (b ≡ true → t ≤ size) → not (b && ltb size t) ≡ true
fit-good true size t h = rw (le→ltb size t (h refl)) refl
fit-good false size t h = refl

pub within-some :
    (node : Node) (size : ℕ) (r : Option ℕ) → within node size r ≡ true → (t : ℕ) × (r ≡ some t)
within-some node size none e = ground arith
within-some node size (some t) e = (t, refl)

-- On a node that opens and whose size is known, and where no product or sum of sizes wraps
-- (the space before the partitions and each partition below 4 GiB), `validate` accepts exactly the
-- configurations in which every type is Linux or FAT32, only the last partition fills the disk,
-- and, on a block device, the partitions and the space before them are no larger than the disk.
pub validate_iff :
    (node : Node) (dinfo : DiskInfo) (size n : ℕ)
    → node.opens ≡ true
    → node.stats ≡ true
    → disk_size node.kind node dinfo ≡ some (size, n)
    → skipped dinfo < 2 ^ 32
    → All IsSmall dinfo.part_lst
    → skipped dinfo + needs dinfo.part_lst < 2 ^ 64
    → ((validate node dinfo).1 ≡ true) ↔ (
        All IsKnown dinfo.part_lst
        × FillsLast dinfo.part_lst
        × (is_block node.kind ≡ true → skipped dinfo + needs dinfo.part_lst ≤ size))
unfolding parts_fit
validate_iff node dinfo size n opens stats e start small fits = (
  λ h.
      let w = sym tested ∙ h in
      let (t, total) = within-some node size _ w in
      let (known, last) = total_size-Good dinfo.part_lst (u32 (skipped dinfo)) t total in
      (known, last, fit-block _ size _ (rw (wanted known last) at w)),
  λ (known, last, room). tested ∙ rw (wanted known last) (fit-good _ size _ room),
)
  where
    tested :
        (validate node dinfo).1 ≡ within node size (total_size dinfo.part_lst (u32 (skipped dinfo)))
    tested = ap (λ x. x.1) (validate-sized node dinfo size n opens stats e)

    wanted :
        All IsKnown dinfo.part_lst
        → FillsLast dinfo.part_lst
        → total_size dinfo.part_lst (u32 (skipped dinfo))
          ≡ some (skipped dinfo + needs dinfo.part_lst)
    wanted known last =
        let same : u32 (skipped dinfo) ≡ skipped dinfo = omega arith in
        rw same (total_size-some dinfo.part_lst (skipped dinfo) known last small fits)

-- On a node that opens and whose size is known, `validate` accepts a partition of `k` times 4 GiB
-- behind the first `skip_lba` blocks whatever the size of the disk is, as long as those blocks are
-- on it and lie below 4 GiB: the product `len_kb * 1024` has 32 bits, and is 0.
pub validate_wraps :
    (node : Node) (dinfo : DiskInfo) (size n : ℕ) (p : PartInfo) (k : ℕ)
    → node.opens ≡ true
    → node.stats ≡ true
    → disk_size node.kind node dinfo ≡ some (size, n)
    → dinfo.part_lst ≡ p ∷ []
    → IsKnown p
    → p.len_kb ≡ k * 2 ^ 22
    → k < 1024
    → skipped dinfo < 2 ^ 32
    → skipped dinfo ≤ size
    → ((validate node dinfo).1 ≡ true) × (need p ≡ k * 2 ^ 32)
unfolding total_size parts_fit
validate_wraps node dinfo size n p k opens stats e one known len few start room = (
  ap (λ x. x.1) (validate-sized node dinfo size n opens stats e)
      ∙ rw (one, counted) (fit-good _ size _ (λ b. omega arith)),
  need-sized p partial ∙ omega (arith, len),
)
  where
    partial : (p.len_kb == fill) ≡ false
    partial = let m : p.len_kb ≢ fill = λ f. omega arith in ground arith

    counted : total_size (p ∷ []) (u32 (skipped dinfo)) ≡ some (skipped dinfo)
    counted =
        total_size-after p [] (u32 (skipped dinfo))
        ∙ rw (add_part-sized p [] (u32 (skipped dinfo)) partial, known_types p known, total_size)
            (ap some (omega (arith, len)))
