-- ===== src/Gpt/FreeSpace/Sorted.antt =====
-- The order in which libgpt/gpt.c `gpt_find_contiguous_free_space` goes through the partitions.
use platform_bootable_iago.Base.{
  ℕ, ◌+◌, ◌^◌, ◌≤◌, ◌<◌, ◌≡◌, ◌⊎◌, inl, inr, ◌↔◌, arith, List, [], ◌∷◌, All, Bool-cases, true,
  false,
}
use platform_bootable_iago.Gpt.Table.Scan.{AllPairs}
use platform_bootable_iago.Gpt.FreeSpace.{Region, region_leb, insert, sort_regions}
use platform_bootable_iago.Gpt.FreeSpace.Gaps.{Chain}

abbrev pub Disjoint : Region → Region → Type 0
Disjoint r q = (r.end < q.start) ⊎ (q.end < r.start)

-- A region that lies from `base` on and ends before `limit`.
abbrev pub Within : ℕ → ℕ → Region → Type 0
Within base limit r = (base ≤ r.start) × (r.start ≤ r.end) × (r.end < limit)

All-insert :
    (P : Region → Type 0) (r : Region) (qs : List Region) → All P (insert r qs) ↔ All P (r ∷ qs)
unfolding insert
All-insert P r [] = (λ h. h, λ h. h)
All-insert P r (q ∷ qs) = elim (Bool-cases (region_leb r q)) [
  | inl le ↦ rw le (λ h. h, λ h. h)
  | inr gt ↦
      let (there, back) = All-insert P r qs in
      rw gt (
        λ h. let (first, rest) = there h.1 in (first, (h.0, rest)),
        λ h. (h.1.0, back (h.0, h.1.1)),
      )
]

-- Sorting keeps what holds of every region.
pub All-sort_regions : (P : Region → Type 0) (rs : List Region) → All P (sort_regions rs) ↔ All P rs
unfolding sort_regions
All-sort_regions P [] = (λ h. h, λ h. h)
All-sort_regions P (r ∷ rs) =
    let (there, back) = All-insert P r (sort_regions rs) in
    let (there', back') = All-sort_regions P rs in
    (λ h. let (first, rest) = there h in (first, there' rest), λ h. back (h.0, back' h.1))

-- The signed 64-bit comparison is that of the starts, where they are below 2^63.
region_leb-eq :
    (r q : Region)
    → r.start < 2 ^ 63
    → q.start < 2 ^ 63
    → ((region_leb r q ≡ true) × (r.start ≤ q.start))
      ⊎ ((region_leb r q ≡ false) × (q.start < r.start))
region_leb-eq r q hr hq = ground arith

insert-Chain :
    (limit : ℕ) (r : Region) (qs : List Region) (base : ℕ)
    → limit ≤ 2 ^ 63
    → Within base limit r
    → Chain base limit qs
    → All (Disjoint r) qs
    → Chain base limit (insert r qs)
unfolding insert
insert-Chain limit r [] base small w h apart = (w.0, w.1, w.2, omega arith)
insert-Chain limit r (q ∷ qs) base small w (lo, hi, inside, rest) apart =
    elim (region_leb-eq r q (omega arith) (omega arith)) [
      | inl (e, le) ↦
          let before : r.end < q.start = ground arith in
          rw e (w.0, w.1, w.2, (omega arith, hi, inside, rest))
      | inr (e, gt) ↦
          let behind : q.end < r.start = ground arith in
          rw e (
            lo,
            hi,
            inside,
            insert-Chain limit r qs (q.end + 1) small (omega arith, w.1, w.2) rest apart.1,
          )
    ]

-- Disjoint regions are sorted into a chain.
pub sort_regions-Chain :
    (base limit : ℕ) (rs : List Region)
    → base ≤ limit
    → limit ≤ 2 ^ 63
    → All (Within base limit) rs
    → AllPairs Disjoint rs
    → Chain base limit (sort_regions rs)
unfolding sort_regions AllPairs
sort_regions-Chain base limit [] h small w d = h
sort_regions-Chain base limit (r ∷ rs) h small w d =
    insert-Chain limit r (sort_regions rs) base small w.0
      (sort_regions-Chain base limit rs h small w.1 d.1) ((All-sort_regions (Disjoint r) rs).1 d.0)
