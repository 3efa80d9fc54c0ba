-- ===== src/Preinit/Boot.antt =====
-- When preinit/preinit.c `main` gives up.
use platform_bootable_iago.Base.{
  ℕ, zero, suc, ◌+◌, ◌≤◌, ◌<◌, ◌≡◌, ◌≢◌, ◌↔◌, ◌⊎◌, refl, ap, ◌∙◌, sym, arith, Bool, true, false,
  Bool-cases, inl, inr, List, Option, some,
}
use mathlib.Core.Path.{subst}
use mathlib.Core.Option.{some-injective, none-ne-some}
use platform_bootable_iago.Preinit.Detect.{Ext2}
use platform_bootable_iago.Preinit.{Sys, Disk, mount_device, boot_from, boot}
use platform_bootable_iago.Preinit.Laws.{media_on, mount_device-Clean}

-- The first attempt that succeeds.
abbrev pub First : (ℕ → Bool) → ℕ → ℕ → Type 0
First mounted from n =
    (mounted n ≡ true) × (from ≤ n) × ((k : ℕ) → from ≤ k → k < n → mounted k ≡ false)

le_cases : (a b : ℕ) → a ≤ b → (a ≡ b) ⊎ (a + 1 ≤ b)
le_cases a b h = ground arith

module _ (mounted : ℕ → Bool) where
  First-here : (from n : ℕ) → mounted from ≡ true → from ≡ n → First mounted from n
  First-here from n hit e =
      (subst (λ m. mounted m ≡ true) e hit, omega arith, λ k lo hi. absurd (omega arith))

  not_both : (m n : ℕ) → mounted m ≡ true → mounted n ≡ false → m ≢ n
  not_both m n hit miss e =
      let wrong : true ≡ false = sym (subst (λ k. mounted k ≡ true) e hit) ∙ miss in ground arith

  -- Behind an attempt that failed.
  First-later :
      (from n : ℕ) → mounted from ≡ false → First mounted (suc from) n → First mounted from n
  First-later from n miss (hit, lo, before) = (
    hit,
    omega arith,
    λ k lo' hi. elim (le_cases from k lo') [
      | inl e ↦ subst (λ m. mounted m ≡ false) e miss
      | inr lt ↦ before k (omega (arith, lt)) hi
    ],
  )

  -- An attempt that succeeds is the first one from there on.
  First-now : (from n : ℕ) → mounted from ≡ true → First mounted from n → from ≡ n
  First-now from n now (hit, lo, before) = elim (le_cases from n lo) [
    | inl e ↦ e
    | inr lt ↦ absurd (not_both from from now (before from (omega arith) (omega arith)) refl)
  ]

module _ (ext : Ext2) (skip : List ℕ → Bool) (disks : ℕ → Option (List (Disk ext)))
    (written : ℕ → Bool) (s : Sys) where
  -- Attempt `n` from a state, and the state before it, every attempt before having gone on.
  abbrev pub attempt : ℕ → Sys → Bool × Sys
  attempt n s' = mount_device ext skip (disks n) (written n) s'

  unfoldable pub before : ℕ → Sys
  before zero = s
  before (suc n) = (attempt n (before n)).1

  -- Whether `mount_device` gives 0 at attempt `n`.
  abbrev pub gives_0 : ℕ → Bool
  gives_0 n = (attempt n (before n)).0

  abbrev run : ℕ → ℕ → Option ℕ × Sys
  run count from = boot_from ext count skip disks written from (before from)

  run_sound :
      (count from n : ℕ)
      → (run count from).0 ≡ some n
      → First gives_0 from n × (n ≤ from + count) × ((run count from).1 ≡ before (suc n))
  unfolding boot_from before
  run_sound zero from n e = elim (Bool-cases (gives_0 from)) [
    | inl hit ↦
        let same = some-injective from n (rw hit at e) in
        (First-here gives_0 from n hit same, omega arith, rw hit (ap (λ m. before (suc m)) same))
    | inr miss ↦ absurd (none-ne-some n (rw miss at e))
  ]
  run_sound (suc count) from n e = elim (Bool-cases (gives_0 from)) [
    | inl hit ↦
        let same = some-injective from n (rw hit at e) in
        (First-here gives_0 from n hit same, omega arith, rw hit (ap (λ m. before (suc m)) same))
    | inr miss ↦
        let (later, bound, left) = run_sound count (suc from) n (rw miss at e) in
        (First-later gives_0 from n miss later, omega arith, rw miss left)
  ]

  run_complete :
      (count from n : ℕ) → First gives_0 from n → n ≤ from + count → (run count from).0 ≡ some n
  unfolding boot_from before
  run_complete zero from n (hit, lo, early) bound =
      let same : from ≡ n = omega arith in
      rw (subst (λ m. gives_0 m ≡ true) (sym same) hit) (ap some same)
  run_complete (suc count) from n (hit, lo, early) bound = elim (Bool-cases (gives_0 from)) [
    | inl now ↦ rw now (ap some (First-now gives_0 from n now (hit, lo, early)))
    | inr miss ↦
        let other = not_both gives_0 n from hit miss in
        rw miss (
          run_complete count (suc from) n
            (hit, omega (arith, other), λ k lo' hi. early k (omega arith) hi) (omega arith))
  ]

  before-Clean : (n : ℕ) → s.tmp_node ≡ false → (before n).tmp_node ≡ false
  unfolding before
  before-Clean zero clean = clean
  before-Clean (suc n) clean =
      (mount_device-Clean ext skip (disks n) (written n) (before n) (before-Clean n clean)).0

  -- `main` of preinit, from a state without the temporary node: it starts the real init after the
  -- attempt `n` exactly where `n` is the first attempt, counted from 0, at which `mount_device`,
  -- in the state that the attempts before it have left, returns 0, and one of the first 16. There
  -- is then no temporary node, and the two mounts of the media lie on those that the attempts before
  -- had left.
  pub boot-First :
      (n : ℕ)
      → s.tmp_node ≡ false
      → let r = boot ext skip disks written s in
        ((r.0 ≡ some n) ↔ (First gives_0 0 n × (n ≤ 15)))
        × (r.0 ≡ some n → (r.1.tmp_node ≡ false) × (r.1.mounts ≡ media_on true (before n).mounts))
  unfolding boot before
  boot-First n clean = (
    (
      λ e. let (first, bound, left) = run_sound 15 0 n e in (first, omega arith),
      λ (first, bound). run_complete 15 0 n first (omega arith),
    ),
    λ e.
        let (first, bound, left) = run_sound 15 0 n e in
        let (node, mounts, on) =
          mount_device-Clean ext skip (disks n) (written n) (before n) (before-Clean n clean) in
        (ap (λ x. x.tmp_node) left ∙ node, ap (λ x. x.mounts) left ∙ on first.0),
  )
