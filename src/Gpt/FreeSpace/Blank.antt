-- ===== src/Gpt/FreeSpace/Blank.antt =====
-- The free space of a table without partitions, which libgpt/gpt.c `gpt_new` makes.
use platform_bootable_iago.Base.{
  ℕ, zero, suc, ◌+◌, ◌-◌, ◌*◌, ◌^◌, ◌≤◌, ◌<◌, ◌≡◌, refl, ap, ◌∙◌, arith, List, [], Option, none,
  some, true, false, map, lt→ltb, ◌==◌, if◌then◌else◌, u64,
}
use platform_bootable_iago.Gpt.Entry.{Entry}
use platform_bootable_iago.Gpt.Table.{Gpt, entry_at, used_from, partitions}
use platform_bootable_iago.Gpt.Table.Scan.{IsFree}
use platform_bootable_iago.Gpt.Table.Slots.{free_from, free_slots}
use platform_bootable_iago.Gpt.Edit.Laws.{IsNew, array_blocks}
use platform_bootable_iago.Gpt.FreeSpace.{
  sort_regions, largest_update, scan_gaps, region_of, gpt_find_contiguous_free_space,
}
use platform_bootable_iago.Gpt.FreeSpace.Largest.{IsLaidOut}

is_zero : (m : ℕ) → m ≡ 0 → (m == 0) ≡ true
is_zero m e = ground arith

used_from-empty :
    (g : Gpt) (n i : ℕ) → ((j : ℕ) → i ≤ j → j < i + n → IsFree j g) → used_from n i g ≡ []
unfolding used_from
used_from-empty g zero i free = refl
used_from-empty g (suc n) i free =
    let here : ((entry_at i g).first_lba == 0) ≡ true =
      is_zero _ (free i (omega arith) (omega arith)) in
    rw here (used_from-empty g n (i + 1) (λ j lo hi. free j (omega arith) (omega arith)))

free_from-all :
    (g : Gpt) (n i : ℕ) → ((j : ℕ) → i ≤ j → j < i + n → IsFree j g) → free_from n i g ≡ n
unfolding free_from
free_from-all g zero i free = refl
free_from-all g (suc n) i free =
    rw (is_zero _ (free i (omega arith) (omega arith)))
      (ap suc (free_from-all g n (i + 1) (λ j lo hi. free j (omega arith) (omega arith))))

-- The answer for a list of partitions.
abbrev answer : ℕ → ℕ → List (ℕ × Entry) → Option (ℕ × ℕ)
answer first limit ps =
    let largest =
      scan_gaps (sort_regions (map region_of ps)) first limit
        (record { start = 0; end = 0; size = 0 }) in
    if largest.size == 0 then none else some (largest.start, largest.end)

answer-empty :
    (first limit last : ℕ)
    → first < limit
    → limit ≡ last + 1
    → answer first limit [] ≡ some (first, last)
unfolding sort_regions scan_gaps largest_update
answer-empty first limit last lt e =
    rw
      (
        lt→ltb first limit lt,
        lt→ltb 0 (limit - first) (omega arith),
        nonzero (limit - first) (omega arith),
      )
      (let same : limit - 1 ≡ last = omega arith in ap (λ n. some (first, n)) same)
  where
    nonzero : (n : ℕ) → 0 < n → (n == 0) ≡ false
    nonzero n h = ground arith

module _ (g g' : Gpt) (new : IsNew g g') (big : 4 + 2 * array_blocks g ≤ g.sectors)
    (small : g.sectors ≤ 2 ^ 63) where
  new-partitions : partitions g' ≡ []
  unfolding partitions
  new-partitions =
      used_from-empty g' g'.header.num_pentries 1 (λ j lo hi. new.empty j (lo, omega arith))

  -- The partitions of a new table, of which there are none, are laid out.
  pub new-IsLaidOut : IsLaidOut g'
  new-IsLaidOut = record {
    area = let first = new.first in let last = new.last in omega arith;
    small = let last = new.last in omega arith;
    within = λ i h used. absurd (used (new.empty i h));
    disjoint = λ i j hi hj lt used. absurd (used (new.empty i hi));
  }

  -- All slots of a new table are free.
  pub new-free_slots : free_slots g' ≡ g'.header.num_pentries
  new-free_slots =
      free_from-all g' g'.header.num_pentries 1 (λ j lo hi. new.empty j (lo, omega arith))

  -- The largest free range of a new table is the whole usable area.
  pub gpt_find-new :
      gpt_find_contiguous_free_space g'
      ≡ some (g'.header.first_usable_lba, g'.header.last_usable_lba)
  unfolding gpt_find_contiguous_free_space
  gpt_find-new =
      ap (answer g'.header.first_usable_lba (u64 (g'.header.last_usable_lba + 1))) new-partitions
      ∙ answer-empty g'.header.first_usable_lba (u64 (g'.header.last_usable_lba + 1))
          g'.header.last_usable_lba (let first = new.first in let last = new.last in omega arith)
          (let last = new.last in omega arith)
