-- ===== src/Gpt/FreeSpace/Gaps.antt =====
-- What the loop of libgpt/gpt.c `gpt_find_contiguous_free_space` finds between sorted regions.
use platform_bootable_iago.Base.{
  ℕ, ◌+◌, ◌-◌, ◌^◌, ◌≤◌, ◌<◌, ◌≡◌, ◌⊎◌, inl, inr, refl, ◌∙◌, sym, arith, List, [], ◌∷◌, All,
  Bool-cases, ltb, u64,
}
use mathlib.Core.Path.{subst}
use platform_bootable_iago.Gpt.FreeSpace.{Region, largest_update, scan_gaps}

-- The blocks from `a` to `b` have none in common with a region.
abbrev pub Avoids : ℕ → ℕ → Region → Type 0
Avoids a b r = (r.end < a) ⊎ (b < r.start)

-- Regions side by side from `base` on, in order and without overlaps, that end before `limit`.
abbrev pub Chain : ℕ → ℕ → List Region → Type 0
Chain base limit [] = base ≤ limit
Chain base limit (r ∷ rs) =
    (base ≤ r.start) × (r.start ≤ r.end) × (r.end < limit) × Chain (r.end + 1) limit rs

-- A free block that a search may give for regions from `base` on.
abbrev pub Block : ℕ → ℕ → List Region → ℕ → ℕ → Type 0
Block base limit rs a b = (base ≤ a) × (a ≤ b) × (b < limit) × All (Avoids a b) rs

-- How the largest block `l'` after the loop comes from the one before, `l`.
pub record Best (base limit : ℕ) (rs : List Region) (l l' : Region) : Type 0 where
  pub found :
      (l' ≡ l)
      ⊎ (Block base limit rs l'.start l'.end
          × (l'.size ≡ l'.end + 1 - l'.start)
          × (l.size < l'.size))
  pub atleast : (a b : ℕ) → Block base limit rs a b → b + 1 - a ≤ l'.size
  pub grown : l.size ≤ l'.size

update-Best : (base limit : ℕ) (l : Region) → Best base limit [] l (largest_update l base limit)
unfolding largest_update
update-Best base limit l = elim (Bool-cases (ltb base limit)) [
  | inl gap ↦ elim (Bool-cases (ltb l.size (limit - base))) [
    | inl larger ↦
        rw (gap, larger)
          record {
            found =
                inr ((ground arith, ground arith, ground arith, tt), ground arith, ground arith);
            atleast = λ a b h. ground arith;
            grown = ground arith;
          }
    | inr smaller ↦
        rw (gap, smaller)
          record { found = inl refl; atleast = λ a b h. ground arith; grown = ground arith }
  ]
  | inr nothing ↦
      rw nothing record { found = inl refl; atleast = λ a b h. ground arith; grown = ground arith }
]

-- What lies before a chain avoids all of it.
Chain-Avoids :
    (base limit : ℕ) (rs : List Region) (a b : ℕ)
    → Chain base limit rs
    → b < base
    → All (Avoids a b) rs
Chain-Avoids base limit [] a b h lt = tt
Chain-Avoids base limit (r ∷ rs) a b (lo, hi, inside, rest) lt =
    (inr (omega arith), Chain-Avoids (r.end + 1) limit rs a b rest (omega arith))

-- One round of the loop, before the rest of it.
step-Best :
    (base limit : ℕ) (r : Region) (rs : List Region) (l l1 l' : Region)
    → Chain base limit (r ∷ rs)
    → Best base r.start [] l l1
    → Best (r.end + 1) limit rs l1 l'
    → Best base limit (r ∷ rs) l l'
step-Best base limit r rs l l1 l' (lo, hi, inside, rest) now later = record {
  found = elim later.found [
    | inl same ↦ elim now.found [
      | inl same1 ↦ inl (same ∙ same1)
      | inr (block, size, more) ↦ inr (
          subst
            (λ q.
              Block base limit (r ∷ rs) q.start q.end
              × (q.size ≡ q.end + 1 - q.start)
              × (l.size < q.size))
            (sym same)
            (
              (
                block.0,
                block.1,
                omega arith,
                (inr block.2, Chain-Avoids (r.end + 1) limit rs l1.start l1.end rest (omega arith)),
              ),
              size,
              more,
            ))
    ]
    | inr (block, size, more) ↦
        let grown = now.grown in
        inr ((omega arith, block.1, block.2, (inl (omega arith), block.3)), size, omega arith)
  ];
  atleast = λ a b (lo_a, ab, hi_b, avoid). elim avoid.0 [
    | inl behind ↦ later.atleast a b (omega arith, ab, hi_b, avoid.1)
    | inr before ↦
        let grown = later.grown in let this = now.atleast a b (lo_a, ab, before, tt) in omega arith
  ];
  grown = let g1 = now.grown in let g2 = later.grown in omega arith;
}

-- The loop gives the largest block that is free between the regions, unless the block that it
-- starts from is as large.
pub scan_gaps-Best :
    (rs : List Region) (base limit : ℕ) (l : Region)
    → limit < 2 ^ 64
    → Chain base limit rs
    → Best base limit rs l (scan_gaps rs base limit l)
unfolding scan_gaps
scan_gaps-Best [] base limit l small h = update-Best base limit l
scan_gaps-Best (r ∷ rs) base limit l small h =
    let l1 = largest_update l base r.start in
    let no_wrap : u64 (r.end + 1) ≡ r.end + 1 = let inside = h.2 in omega arith in
    rw no_wrap (
      step-Best base limit r rs l l1 (scan_gaps rs (r.end + 1) limit l1) h
        (update-Best base r.start l) (scan_gaps-Best rs (r.end + 1) limit l1 small h.3))
