-- ===== src/Gpt/FreeSpace.antt =====
-- The search for free space of libgpt/gpt.c: `regioncmp`, `largest_update`,
-- `gpt_find_contiguous_free_space`.
pub mod Blank
pub mod Gaps
pub mod Sorted
pub mod Largest
pub mod Place
use platform_bootable_iago.Base.{
  ℕ, ◌+◌, ◌-◌, ◌^◌, ◌||◌, Bool, true, false, List, [], ◌∷◌, Option, none, some, map, ltb, leb, ◌==◌,
  if◌then◌else◌, u64,
}
use platform_bootable_iago.Gpt.Entry.{Entry}
use platform_bootable_iago.Gpt.Table.{Gpt, partitions}

-- `struct ptn_region`; the sizes of the partitions' own regions stay 0.
pub record Region : Type 0 where
  pub start : ℕ
  pub end : ℕ
  pub size : ℕ

-- `regioncmp(a, b) <= 0`: the difference is taken as a signed 64-bit number.
abbrev pub region_leb : Region → Region → Bool
region_leb a b = let d = u64 (a.start + 2 ^ 64 - b.start) in (d == 0) || leb (2 ^ 63) d

unfoldable pub insert : Region → List Region → List Region
insert r [] = r ∷ []
insert r (q ∷ qs) = let rest = insert r qs in if region_leb r q then r ∷ q ∷ qs else q ∷ rest

-- What `qsort` with `regioncmp` is used for; regions that start together keep their order.
unfoldable pub sort_regions : List Region → List Region
unfolding insert
sort_regions [] = []
sort_regions (r ∷ rs) = insert r (sort_regions rs)

unfoldable pub largest_update : Region → ℕ → ℕ → Region
largest_update largest base start =
    if ltb base start
    then (if ltb largest.size (start - base)
        then record { start = base; end = start - 1; size = start - base }
        else largest)
    else largest

-- The loop over the sorted regions, and the space behind the last one up to `limit`.
unfoldable pub scan_gaps : List Region → ℕ → ℕ → Region → Region
unfolding largest_update
scan_gaps [] base limit largest = largest_update largest base limit
scan_gaps (r ∷ rs) base limit largest =
    scan_gaps rs (u64 (r.end + 1)) limit (largest_update largest base r.start)

abbrev pub region_of : ℕ × Entry → Region
region_of (i, e) = record { start = e.first_lba; end = e.last_lba; size = 0 }

-- `none` is the -1 where there is no free space at all.
unfoldable pub gpt_find_contiguous_free_space : Gpt → Option (ℕ × ℕ)
unfolding sort_regions scan_gaps
gpt_find_contiguous_free_space g =
    let largest =
      scan_gaps (sort_regions (map region_of (partitions g))) g.header.first_usable_lba
        (u64 (g.header.last_usable_lba + 1)) (record { start = 0; end = 0; size = 0 }) in
    if largest.size == 0 then none else some (largest.start, largest.end)
