-- ===== src/Gpt/Table/Scan.antt =====
-- What the loops of libgpt/gpt.c over the entry array find.
use platform_bootable_iago.Base.{
  ℕ, zero, suc, ◌+◌, ◌≤◌, ◌<◌, ◌≡◌, inl, inr, refl, arith, Bool-cases, ◌==◌, ==_iff, All, List, [],
  ◌∷◌,
}
use mathlib.Core.Path.{subst}
use mathlib.Core.Logic.{◌↔◌}
use native.Mathlib.Decide.{ℕ_discrete}
use platform_bootable_iago.Gpt.Entry.{Entry}
use platform_bootable_iago.Gpt.Table.{
  Gpt, entry_at, next_from, gpt_next_index, used_from, partitions, InTable,
}

abbrev pub IsFree : ℕ → Gpt → Type 0
IsFree i g = (entry_at i g).first_lba ≡ 0

-- What a search for a free entry among the `n` from index `i` on may answer.
pub data Found (i n : ℕ) (g : Gpt) (r : ℕ) : Type 0 where
  none_free : r ≡ 0 → ((j : ℕ) → i ≤ j → j < i + n → ¬ IsFree j g) → Found i n g r
  first_free :
      i ≤ r → r < i + n → IsFree r g → ((j : ℕ) → i ≤ j → j < r → ¬ IsFree j g) → Found i n g r

-- A statement about the indices from `i` on follows from one at `i` and one about the rest.
pub from_suc :
    (P : ℕ → Type 0) (i k : ℕ)
    → P i
    → ((j : ℕ) → i + 1 ≤ j → j < k → P j)
    → (j : ℕ) → i ≤ j
    → j < k
    → P j
from_suc P i k now later j lo hi = elim (ℕ_discrete i j) [
  | yes e ↦ subst P e now
  | no ne ↦ later j (omega arith) hi
]

Found-suc : (i n : ℕ) (g : Gpt) (r : ℕ) → ¬ IsFree i g → Found (i + 1) n g r → Found i (suc n) g r
Found-suc i n g r used (none_free e all) =
    none_free e
      (from_suc (λ j. ¬ IsFree j g) i (i + suc n) used (λ j lo hi. all j lo (omega arith)))
Found-suc i n g r used (first_free lo hi free all) =
    first_free (omega arith) (omega arith) free (from_suc (λ j. ¬ IsFree j g) i r used all)

next_from-Found : (n i : ℕ) (g : Gpt) → Found i n g (next_from n i g)
unfolding next_from
next_from-Found zero i g = none_free refl (λ j lo hi e. omega arith)
next_from-Found (suc n) i g = elim (Bool-cases ((entry_at i g).first_lba == 0)) [
  | inl h ↦
      rw h (first_free (omega arith) (omega arith) ((==_iff _ 0).0 h) (λ j lo hi e. omega arith))
  | inr h ↦ rw h (Found-suc i n g _ (λ e. ground arith) (next_from-Found n (i + 1) g))
]

-- `gpt_next_index` returns the first index in the table whose entry is free, and 0 exactly when
-- every entry is in use.
pub gpt_next_index-Found : (g : Gpt) → Found 1 g.header.num_pentries g (gpt_next_index g)
unfolding gpt_next_index
gpt_next_index-Found g = next_from-Found g.header.num_pentries 1 g

module _ (g : Gpt) (P : ℕ × Entry → Type 0) where
  -- A statement about the used entries among the `n` from `i` on.
  abbrev pub EachUsed : ℕ → ℕ → Type 0
  EachUsed i n = (j : ℕ) → i ≤ j → j < i + n → ¬ IsFree j g → P (j, entry_at j g)

  used_from_complete : (n i : ℕ) → All P (used_from n i g) → EachUsed i n
  unfolding used_from
  used_from_complete zero i h = λ j lo hi used. absurd (omega arith)
  used_from_complete (suc n) i h = elim (Bool-cases ((entry_at i g).first_lba == 0)) [
    | inl free ↦
        from_suc (λ j. ¬ IsFree j g → P (j, entry_at j g)) i (i + suc n)
          (λ used. absurd (used ((==_iff _ 0).0 free)))
          (λ j lo hi. used_from_complete n (i + 1) (rw free at h) j lo (omega arith))
    | inr taken ↦
        let (now, later) = rw taken at h in
        from_suc (λ j. ¬ IsFree j g → P (j, entry_at j g)) i (i + suc n) (λ used. now)
          (λ j lo hi. used_from_complete n (i + 1) later j lo (omega arith))
  ]

  pub used_from_sound : (n i : ℕ) → EachUsed i n → All P (used_from n i g)
  unfolding used_from
  used_from_sound zero i h = tt
  used_from_sound (suc n) i h = elim (Bool-cases ((entry_at i g).first_lba == 0)) [
    | inl free ↦ rw free (used_from_sound n (i + 1) (λ j lo hi. h j (omega arith) (omega arith)))
    | inr taken ↦ rw taken (
      h i (omega arith) (omega arith) (λ e. ground arith),
      used_from_sound n (i + 1) (λ j lo hi. h j (omega arith) (omega arith)),
    )
  ]

  -- `partition_for_each` visits every entry in use that the table has, and nothing else.
  pub partitions_iff :
      All P (partitions g) ↔ ((j : ℕ) → InTable j g → ¬ IsFree j g → P (j, entry_at j g))
  unfolding partitions
  partitions_iff = (
    λ h j t. used_from_complete g.header.num_pentries 1 h j t.0 (let hi = t.1 in omega arith),
    λ h. used_from_sound g.header.num_pentries 1 (λ j lo hi. h j (lo, omega arith)),
  )

-- Entries in use that are pairwise related by index are related all along the list of them.
unfoldable pub AllPairs {ℓ κ} : {A : Type ℓ} → (A → A → Type κ) → List A → Type κ
AllPairs R [] = Unit
AllPairs R (x ∷ xs) = All (R x) xs × AllPairs R xs

module _ (g : Gpt) (R : ℕ × Entry → ℕ × Entry → Type 0)
    (related : (i j : ℕ)
      → InTable i g
      → InTable j g
      → i < j
      → ¬ IsFree i g
      → ¬ IsFree j g
      → R (i, entry_at i g) (j, entry_at j g)) where
  used_from-AllPairs :
      (n i : ℕ) → 1 ≤ i → i + n ≤ g.header.num_pentries + 1 → AllPairs R (used_from n i g)
  unfolding used_from AllPairs
  used_from-AllPairs zero i lo hi = tt
  used_from-AllPairs (suc n) i lo hi = elim (Bool-cases ((entry_at i g).first_lba == 0)) [
    | inl free ↦ rw free (used_from-AllPairs n (i + 1) (omega arith) (omega arith))
    | inr taken ↦ rw taken (
      used_from_sound g (R (i, entry_at i g)) n (i + 1) (λ j a b used.
          related i j (omega arith) (omega arith) (omega arith) (λ e. ground arith) used),
      used_from-AllPairs n (i + 1) (omega arith) (omega arith),
    )
  ]

  pub partitions-AllPairs : AllPairs R (partitions g)
  unfolding partitions
  partitions-AllPairs = used_from-AllPairs g.header.num_pentries 1 (omega arith) (omega arith)
