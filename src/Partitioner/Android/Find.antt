-- ===== src/Partitioner/Android/Find.antt =====
-- What installer/partitioner.c `check_for_ptn` finds.
use platform_bootable_iago.Base.{
  ℕ, zero, suc, ◌+◌, ◌≤◌, ◌<◌, ◌≡◌, arith, inl, inr, true, not, ◌&&◌, ◌==◌, Bool-cases, Option,
  none, some,
}
use platform_bootable_iago.Gpt.Guid.{Guid, guid_eq}
use platform_bootable_iago.Gpt.Table.{Gpt, entry_at}
use platform_bootable_iago.Gpt.Table.Scan.{IsFree, from_suc}
use platform_bootable_iago.Partitioner.Android.{check_from, check_for_ptn}

-- A partition with the type GUID.
abbrev pub HasType : Guid → Gpt → ℕ → Type 0
HasType guid g i = (¬ IsFree i g) × (guid_eq guid (entry_at i g).type_guid ≡ true)

-- What a search among the `n` entries from index `i` on may answer.
abbrev pub FirstOfType : ℕ → ℕ → Guid → Gpt → Option ℕ → Type 0
FirstOfType i n guid g none = (j : ℕ) → i ≤ j → j < i + n → ¬ HasType guid g j
FirstOfType i n guid g (some r) =
    (i ≤ r) × (r < i + n) × HasType guid g r × ((j : ℕ) → i ≤ j → j < r → ¬ HasType guid g j)

FirstOfType-suc :
    (i n : ℕ) (guid : Guid) (g : Gpt) (r : Option ℕ)
    → ¬ HasType guid g i
    → FirstOfType (i + 1) n guid g r
    → FirstOfType i (suc n) guid g r
FirstOfType-suc i n guid g none miss all =
    from_suc (λ j. ¬ HasType guid g j) i (i + suc n) miss (λ j lo hi. all j lo (omega arith))
FirstOfType-suc i n guid g (some r) miss (lo, hi, has, all) =
    (omega arith, omega arith, has, from_suc (λ j. ¬ HasType guid g j) i r miss all)

check_from-FirstOfType :
    (n i : ℕ) (guid : Guid) (g : Gpt) → FirstOfType i n guid g (check_from n i guid g)
unfolding check_from
check_from-FirstOfType zero i guid g = λ j lo hi. absurd (omega arith)
check_from-FirstOfType (suc n) i guid g =
    elim (Bool-cases
      (not ((entry_at i g).first_lba == 0) && guid_eq guid (entry_at i g).type_guid)) [
        | inl h ↦ rw h (
          omega arith,
          omega arith,
          (λ e. ground arith, ground arith),
          λ j lo hi. absurd (omega arith),
        )
        | inr h ↦ rw h (
            FirstOfType-suc i n guid g (check_from n (i + 1) guid g) (λ (used, eq). ground arith)
              (check_from-FirstOfType n (i + 1) guid g))
      ]

-- `check_for_ptn` gives the first index in the table whose entry is in use and has the type GUID,
-- and -1 exactly when there is none.
pub check_for_ptn-FirstOfType :
    (g : Gpt) (guid : Guid) → FirstOfType 1 g.header.num_pentries guid g (check_for_ptn g guid)
unfolding check_for_ptn
check_for_ptn-FirstOfType g guid = check_from-FirstOfType g.header.num_pentries 1 guid g
