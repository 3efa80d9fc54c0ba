-- ===== src/Mbr/Apply/Second.antt =====
-- A second run of `validate_and_config` of editdisklbl/diskconfig.c on a regular file.
use platform_bootable_iago.Base.{
  ℕ, ◌≡◌, refl, ap, ◌∙◌, sym, arith, Bool, true, false, Bool-cases, inl, inr, List, [], ◌∷◌, Option,
  none, some, ◌==◌, if◌then◌else◌, u32, u64, not, ◌&&◌, ◌+◌, ◌*◌,
}
use mathlib.Core.Option.{some-injective, none-ne-some}
use platform_bootable_iago.Mbr.{PartInfo, DiskInfo, WriteItem, config_mbr}
use platform_bootable_iago.Mbr.Commit.{placed_from, len_lba}
use platform_bootable_iago.Mbr.Validate.{
  Node, regular, validate, total_size, add_part, file_size, disk_size, parts_fit, extend_sign,
  linux, fat32,
}
use platform_bootable_iago.Mbr.Validate.Laws.{sized, skipped, validate-sized, within-some}
use platform_bootable_iago.Mbr.Validate.Total.{after, total_size-after}
use platform_bootable_iago.Mbr.Apply.{
  part_scheme_mbr, Configured, configured, configure, validate_and_config, processed,
}
use platform_bootable_iago.Mbr.Apply.Again.{moved}

module _ (dinfo : DiskInfo) where
  add_part_placed :
      (p : PartInfo) (ps : List PartInfo) (l l' total : ℕ)
      → add_part (record p { start_lba = l }) total (placed_from dinfo ps l') ≡ add_part p total ps
  unfolding add_part
  add_part_placed p [] l l' total = refl
  add_part_placed p (q ∷ qs) l l' total = refl

  -- The sizes do not depend on the places.
  total_size_placed :
      (ps : List PartInfo) (l total : ℕ)
      → total_size (placed_from dinfo ps l) total ≡ total_size ps total
  unfolding total_size
  total_size_placed [] l total = refl
  total_size_placed (p ∷ ps) l total =
      let next = u32 (l + len_lba dinfo p l) in
      total_size-after (record p { start_lba = l }) (placed_from dinfo ps next) total
      ∙ ap (after (record p { start_lba = l }) (placed_from dinfo ps next))
          (add_part_placed p ps l next total)
      ∙ go (add_part p total ps) (placed_from dinfo ps next) (total_size_placed ps next)
      ∙ sym (total_size-after p ps total)
    where
      go :
          (r : Option ℕ) (qs : List PartInfo)
          → ((t : ℕ) → total_size qs t ≡ total_size ps t)
          → after (record p { start_lba = l }) qs r ≡ after p ps r
      go none qs same = refl
      go (some t) qs same =
          ap (λ r. if not (p.type == linux) && not (p.type == fat32) then none else r) (same t)

given_zero : (m n : ℕ) → m ≡ n → (n == 0) ≡ true → (m == 0) ≡ false → ⊥
given_zero m n e z w = ground arith

-- For a file the size of which is `n` blocks, a second run finds as many.
pub file_size_again :
    (node : Node) (dinfo : DiskInfo) (size n : ℕ) (qs : List PartInfo)
    → file_size node dinfo ≡ some (size, n)
    → (size' : ℕ) × (file_size node (moved (sized dinfo n) qs) ≡ some (size', n))
unfolding file_size
file_size_again node dinfo size n qs e = elim (Bool-cases (dinfo.sect_size == 0)) [
  | inl zero_size ↦ absurd (none-ne-some (size, n) (rw zero_size at e))
  | inr some_size ↦
      let known = rw some_size at e in
      elim (Bool-cases (n == 0)) [
        | inl blank ↦ elim (Bool-cases (dinfo.num_lba == 0)) [
          | inl unknown ↦
              let same = some-injective _ _ (rw unknown at known) in
              (
                node.st_size,
                rw (some_size, blank) (ap (λ m. some (node.st_size, m)) (ap (λ x. x.1) same)),
              )
          | inr given ↦
              let same = ap (λ x. x.1) (some-injective _ _ (rw given at known)) in
              absurd (given_zero dinfo.num_lba n same blank given)
        ]
        | inr lbas ↦ (u64 (n * extend_sign dinfo.sect_size), rw (some_size, lbas) refl)
      ]
]

pub parts_fit_placed :
    (node : Node) (dinfo : DiskInfo) (size size' : ℕ)
    → node.kind ≡ regular
    → parts_fit node dinfo size ≡ true
    → parts_fit node (moved dinfo (placed_from dinfo dinfo.part_lst dinfo.skip_lba)) size' ≡ true
unfolding parts_fit
parts_fit_placed node dinfo size size' reg e =
    let (t, total) = within-some node size _ e in
    rw (total_size_placed dinfo dinfo.part_lst dinfo.skip_lba (u32 (skipped dinfo)) ∙ total, reg)
      refl

-- A configuration with its write list.
abbrev pub done : DiskInfo → List WriteItem → List PartInfo → Configured
done s wr parts = record { dinfo = moved s parts; lst = some wr; fd_open = true }

abbrev rejected : DiskInfo → Configured
rejected s = record { dinfo = s; lst = none; fd_open = false }

configured-some :
    (s : DiskInfo) (r : Option (List WriteItem × List PartInfo)) (wr : List WriteItem)
    → (configured s r).lst ≡ some wr
    → (parts : List PartInfo) × (r ≡ some (wr, parts)) × (configured s r ≡ done s wr parts)
configured-some s none wr e = absurd (none-ne-some wr e)
configured-some s (some (ws, parts)) wr e =
    let same = some-injective ws wr e in
    (parts, ap (λ x. some (x, parts)) same, ap (λ x. done s x parts) same)

pub configure-some :
    (s : DiskInfo) (b : Bool) (wr : List WriteItem)
    → (if b then configure s else rejected s).lst ≡ some wr
    → (b ≡ true)
      × ((s.scheme == part_scheme_mbr) ≡ true)
      × ((parts : List PartInfo) × (config_mbr s ≡ some (wr, parts))
          × (configure s ≡ done s wr parts))
unfolding configure
configure-some s false wr e = absurd (none-ne-some wr e)
configure-some s true wr e = elim (Bool-cases (s.scheme == part_scheme_mbr)) [
  | inl mbr ↦
      let (parts, listed, same) = configured-some s (config_mbr s) wr (rw mbr at e) in
      (refl, mbr, (parts, listed, rw mbr same))
  | inr unknown ↦ absurd (none-ne-some wr (rw unknown at e))
]

pub configure_again :
    (s : DiskInfo) (wr : List WriteItem) (parts : List PartInfo)
    → (s.scheme == part_scheme_mbr) ≡ true
    → config_mbr (moved s parts) ≡ some (wr, parts)
    → configure (moved s parts) ≡ done s wr parts
unfolding configure
configure_again s wr parts mbr e = rw (mbr, e, configure) refl

pub validate_and_config-eq :
    (node : Node) (dinfo s : DiskInfo) (b : Bool)
    → validate node dinfo ≡ (s, b)
    → validate_and_config node dinfo ≡ (if b then configure s else rejected s)
unfolding validate_and_config
validate_and_config-eq node dinfo s b e = ap (λ x. if x.1 then configure x.0 else rejected x.0) e

-- A second run on a regular file, where the first found the places.
pub second_run :
    (node : Node) (s : DiskInfo) (size : ℕ) (wr : List WriteItem) (parts : List PartInfo)
    → node.opens ≡ true
    → node.stats ≡ true
    → node.kind ≡ regular
    → file_size node (moved s parts) ≡ some (size, s.num_lba)
    → parts_fit node (moved s parts) size ≡ true
    → configure (moved s parts) ≡ done s wr parts
    → validate_and_config node (moved s parts) ≡ done s wr parts
unfolding disk_size
second_run node s size wr parts opens stats reg e fit conf =
    validate_and_config-eq node (moved s parts) (moved s parts) true (
      validate-sized node (moved s parts) size s.num_lba opens stats
        (rw (ap (λ k. disk_size k node (moved s parts)) reg) e)
      ∙ ap (λ b. (moved s parts, b)) fit)
    ∙ conf

pub regular_size :
    (node : Node) (dinfo : DiskInfo)
    → node.kind ≡ regular
    → disk_size node.kind node dinfo ≡ file_size node dinfo
unfolding disk_size
regular_size node dinfo reg = ap (λ k. disk_size k node dinfo) reg

pub processed-some :
    (c : Configured) (r : Option (List WriteItem))
    → (processed c r).0 ≡ true
    → (wr : List WriteItem) × (r ≡ some wr) × ((processed c r).1 ≡ c.dinfo)
processed-some c none e = ground arith
processed-some c (some wr) e = (wr, refl, refl)
