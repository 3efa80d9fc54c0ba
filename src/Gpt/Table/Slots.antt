-- ===== src/Gpt/Table/Slots.antt =====
-- How many entries of the table of libgpt/gpt.c are free.
use platform_bootable_iago.Base.{
  ℕ, zero, suc, ◌+◌, ◌≤◌, ◌<◌, ◌≡◌, ◌≢◌, inl, inr, refl, ap, arith, Bool-cases, ◌==◌, ==_iff,
  if◌then◌else◌,
}
use native.Mathlib.Decide.{ℕ_discrete}
use platform_bootable_iago.Gpt.Table.{Gpt, entry_at, gpt_next_index}
use platform_bootable_iago.Gpt.Table.Scan.{IsFree, none_free, first_free, gpt_next_index-Found}

-- The free entries among the `n` from index `i` on.
unfoldable pub free_from : ℕ → ℕ → Gpt → ℕ
free_from zero i g = 0
free_from (suc n) i g =
    let rest = free_from n (i + 1) g in if (entry_at i g).first_lba == 0 then suc rest else rest

abbrev pub free_slots : Gpt → ℕ
free_slots g = free_from g.header.num_pentries 1 g

free_from-none :
    (n i : ℕ) (g : Gpt) → ((j : ℕ) → i ≤ j → j < i + n → ¬ IsFree j g) → free_from n i g ≡ 0
unfolding free_from
free_from-none zero i g h = refl
free_from-none (suc n) i g h = elim (Bool-cases ((entry_at i g).first_lba == 0)) [
  | inl free ↦ absurd (h i (omega arith) (omega arith) ((==_iff _ 0).0 free))
  | inr used ↦
      rw (used, free_from) (free_from-none n (i + 1) g (λ j lo hi. h j (omega arith) (omega arith)))
]

-- A table with a free entry has one that `gpt_next_index` gives.
pub free_slots-next : (g : Gpt) → 1 ≤ free_slots g → gpt_next_index g ≢ 0
free_slots-next g h z = elim (gpt_next_index-Found g) [
  | none_free e all ↦ omega (arith, free_from-none g.header.num_pentries 1 g all)
  | first_free lo hi free all ↦ omega arith
]

module _ (g g' : Gpt) (k : ℕ) where
  free_from-same :
      (n i : ℕ)
      → ((j : ℕ) → i ≤ j → j < i + n → entry_at j g' ≡ entry_at j g)
      → free_from n i g' ≡ free_from n i g
  unfolding free_from
  free_from-same zero i same = refl
  free_from-same (suc n) i same =
      rw
        (
          same i (omega arith) (omega arith),
          free_from-same n (i + 1) (λ j lo hi. same j (omega arith) (omega arith)),
        )
        refl

  -- Assigning one entry takes one free entry at most.
  pub free_from-others :
      (n i : ℕ)
      → ((j : ℕ) → i ≤ j → j < i + n → j ≢ k → entry_at j g' ≡ entry_at j g)
      → free_from n i g ≤ free_from n i g' + 1
  unfolding free_from
  free_from-others zero i same = omega arith
  free_from-others (suc n) i same =
      let tail = free_from-others n (i + 1) (λ j lo hi. same j (omega arith) (omega arith)) in
      elim (ℕ_discrete i k) [
        | yes e ↦
            let rest =
              free_from-same n (i + 1)
                (λ j lo hi. same j (omega arith) (omega arith) (λ z. omega arith)) in
            ground arith
        | no ne ↦
            let here = ap (λ x. x.first_lba) (same i (omega arith) (omega arith) ne) in ground arith
      ]
