-- ===== src/Gpt/FreeSpace/Largest.antt =====
-- What libgpt/gpt.c `gpt_find_contiguous_free_space` answers for a table of disjoint partitions.
use platform_bootable_iago.Base.{
  ℕ, ◌+◌, ◌-◌, ◌^◌, ◌≤◌, ◌<◌, ◌≡◌, ◌⊎◌, inl, inr, ◌↔◌, ap, arith, List, [], ◌∷◌, All, map, Option,
  none, some, Bool-cases, ◌==◌, ==_iff, u64,
}
use platform_bootable_iago.Gpt.Entry.{Entry}
use platform_bootable_iago.Gpt.Table.{Gpt, InTable, entry_at, partitions}
use platform_bootable_iago.Gpt.Table.Scan.{IsFree, AllPairs, partitions_iff, partitions-AllPairs}
use platform_bootable_iago.Gpt.FreeSpace.{
  Region, region_of, sort_regions, scan_gaps, gpt_find_contiguous_free_space,
}
use platform_bootable_iago.Gpt.FreeSpace.Gaps.{Avoids, Chain, Block, Best, scan_gaps-Best}
use platform_bootable_iago.Gpt.FreeSpace.Sorted.{
  Disjoint, Within, All-sort_regions, sort_regions-Chain,
}

-- Partitions that lie in the usable area, each with a last block not before its first, no two of
-- which overlap. Addresses are below 2^63, as far as a signed comparison can tell them apart.
pub record IsLaidOut (g : Gpt) : Type 0 where
  pub area : g.header.first_usable_lba ≤ g.header.last_usable_lba + 1
  pub small : g.header.last_usable_lba + 1 ≤ 2 ^ 63
  pub within :
      (i : ℕ)
      → InTable i g
      → ¬ IsFree i g
      → (g.header.first_usable_lba ≤ (entry_at i g).first_lba)
        × ((entry_at i g).first_lba ≤ (entry_at i g).last_lba)
        × ((entry_at i g).last_lba ≤ g.header.last_usable_lba)
  pub disjoint :
      (i j : ℕ)
      → InTable i g
      → InTable j g
      → i < j
      → ¬ IsFree i g
      → ¬ IsFree j g
      → ((entry_at i g).last_lba < (entry_at j g).first_lba)
        ⊎ ((entry_at j g).last_lba < (entry_at i g).first_lba)

-- Usable blocks that belong to no partition.
pub record IsUnused (g : Gpt) (a b : ℕ) : Type 0 where
  pub from : g.header.first_usable_lba ≤ a
  pub order : a ≤ b
  pub upto : b ≤ g.header.last_usable_lba
  pub avoids :
      (i : ℕ)
      → InTable i g
      → ¬ IsFree i g
      → ((entry_at i g).last_lba < a) ⊎ (b < (entry_at i g).first_lba)

-- An answer of the search: the largest range of unused blocks, or none where there is none.
abbrev pub IsLargest : Gpt → Option (ℕ × ℕ) → Type 0
IsLargest g none = (a b : ℕ) → ¬ IsUnused g a b
IsLargest g (some (start, end)) =
    IsUnused g start end × ((a b : ℕ) → IsUnused g a b → b + 1 - a ≤ end + 1 - start)

All-map :
    (P : Region → Type 0) (xs : List (ℕ × Entry))
    → All P (map region_of xs) ↔ All (λ x. P (region_of x)) xs
All-map P [] = (λ h. h, λ h. h)
All-map P (x ∷ xs) =
    let (there, back) = All-map P xs in (λ h. (h.0, there h.1), λ h. (h.0, back h.1))

AllPairs-map :
    (R : Region → Region → Type 0) (xs : List (ℕ × Entry))
    → AllPairs (λ x y. R (region_of x) (region_of y)) xs
    → AllPairs R (map region_of xs)
unfolding AllPairs
AllPairs-map R [] h = tt
AllPairs-map R (x ∷ xs) h = ((All-map (R (region_of x)) xs).1 h.0, AllPairs-map R xs h.1)

module _ (g : Gpt) (v : IsLaidOut g) where
  abbrev sorted : List Region
  sorted = sort_regions (map region_of (partitions g))

  abbrev nothing : Region
  nothing = record { start = 0; end = 0; size = 0 }

  -- What holds of every region is what holds of every partition.
  sorted_iff :
      (P : Region → Type 0)
      → All P sorted ↔ ((i : ℕ) → InTable i g → ¬ IsFree i g → P (region_of (i, entry_at i g)))
  sorted_iff P =
      let (a, a') = All-sort_regions P (map region_of (partitions g)) in
      let (b, b') = All-map P (partitions g) in
      let (c, c') = partitions_iff g (λ x. P (region_of x)) in
      (λ h. c (b (a h)), λ h. a' (b' (c' h)))

  limit : u64 (g.header.last_usable_lba + 1) ≡ g.header.last_usable_lba + 1
  limit = let small = v.small in omega arith

  sorted-Chain : Chain g.header.first_usable_lba (g.header.last_usable_lba + 1) sorted
  sorted-Chain =
      sort_regions-Chain g.header.first_usable_lba (g.header.last_usable_lba + 1)
        (map region_of (partitions g)) v.area v.small
        ((All-sort_regions (Within g.header.first_usable_lba (g.header.last_usable_lba + 1)) _).0 (
          (sorted_iff (Within g.header.first_usable_lba (g.header.last_usable_lba + 1))).1
            (λ i t used. let (lo, hi, inside) = v.within i t used in omega arith)))
        (AllPairs-map Disjoint (partitions g)
          (partitions-AllPairs g (λ x y. Disjoint (region_of x) (region_of y)) v.disjoint))

  abbrev found : Region
  found = scan_gaps sorted g.header.first_usable_lba (g.header.last_usable_lba + 1) nothing

  found-Best : Best g.header.first_usable_lba (g.header.last_usable_lba + 1) sorted nothing found
  found-Best =
      scan_gaps-Best sorted g.header.first_usable_lba (g.header.last_usable_lba + 1) nothing
        (let small = v.small in omega arith) sorted-Chain

  Block-IsUnused :
      (a b : ℕ)
      → Block g.header.first_usable_lba (g.header.last_usable_lba + 1) sorted a b ↔ IsUnused g a b
  Block-IsUnused a b = (
    λ h. record {
      from = h.0;
      order = h.1;
      upto = let hi = h.2 in omega arith;
      avoids = (sorted_iff (Avoids a b)).0 h.3;
    },
    λ u. (u.from, u.order, let hi = u.upto in omega arith, (sorted_iff (Avoids a b)).1 u.avoids),
  )

  -- For disjoint partitions inside the usable area, `gpt_find_contiguous_free_space` gives a range
  -- of usable blocks that belong to no partition and than which no such range is larger, and fails
  -- exactly where every usable block belongs to a partition.
  pub gpt_find_contiguous_free_space_lem : IsLargest g (gpt_find_contiguous_free_space g)
  unfolding gpt_find_contiguous_free_space
  gpt_find_contiguous_free_space_lem = rw limit (elim (Bool-cases (found.size == 0)) [
    | inl none_left ↦ rw none_left (λ a b u. empty a b u ((==_iff found.size 0).0 none_left))
    | inr some_left ↦ rw some_left (elim found-Best.found [
      | inl same ↦ absurd (ground (arith, ap (λ r. r.size) same))
      | inr (block, size, more) ↦ (
        (Block-IsUnused found.start found.end).0 block,
        λ a b u. let most = found-Best.atleast a b ((Block-IsUnused a b).1 u) in omega arith,
      )
    ])
  ])
    where
      empty : (a b : ℕ) → IsUnused g a b → found.size ≡ 0 → ⊥
      empty a b u e =
          let most = found-Best.atleast a b ((Block-IsUnused a b).1 u) in
          let order = u.order in omega arith
