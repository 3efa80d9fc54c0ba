-- ===== src/Gpt/FreeSpace/Place.antt =====
-- `gpt_entry_create` of libgpt/gpt.c in free space.
use platform_bootable_iago.Base.{
  ℕ, ◌^◌, ◌≤◌, ◌<◌, ◌≡◌, ◌≢◌, ◌⊎◌, inl, inr, ap, ◌∙◌, sym, arith, List, some, All, IsByte, length,
}
use mathlib.Core.Path.{subst}
use native.Mathlib.Decide.{ℕ_discrete}
use platform_bootable_iago.Gpt.Guid.{PartType}
use platform_bootable_iago.Gpt.Entry.{Entry}
use platform_bootable_iago.Gpt.Name.Laws.{IsChar}
use platform_bootable_iago.Gpt.Table.{Gpt, IsTable, InTable, entry_at, gpt_next_index}
use platform_bootable_iago.Gpt.Table.Scan.{IsFree}
use platform_bootable_iago.Gpt.Edit.{gpt_entry_create}
use platform_bootable_iago.Gpt.Edit.Create.{Assigned, next_InTable, gpt_entry_create-Assigned}
use platform_bootable_iago.Gpt.FreeSpace.Largest.{IsLaidOut, IsUnused}

module _ {g g' : Gpt} (i : ℕ) (e : Entry) (v : IsLaidOut g) (here : InTable i g) (free : IsFree i g)
    (a : Assigned i e g g') (u : IsUnused g e.first_lba e.last_lba) where
  -- The place that an entry has after the assignment, and that it is apart from the new one's.
  first_usable : g'.header.first_usable_lba ≡ g.header.first_usable_lba
  first_usable = ap (λ h. h.first_usable_lba) a.header

  last_usable : g'.header.last_usable_lba ≡ g.header.last_usable_lba
  last_usable = ap (λ h. h.last_usable_lba) a.header

  back : (j : ℕ) → InTable j g' → InTable j g
  back j h = (h.0, let hi = h.1 in let num = ap (λ h. h.num_pentries) a.header in omega arith)

  first_at : (j : ℕ) → InTable j g' → j ≢ i → (entry_at j g').first_lba ≡ (entry_at j g).first_lba
  first_at j h ne = ap (λ e. e.first_lba) (a.others j (back j h) ne)

  last_at : (j : ℕ) → InTable j g' → j ≢ i → (entry_at j g').last_lba ≡ (entry_at j g).last_lba
  last_at j h ne = ap (λ e. e.last_lba) (a.others j (back j h) ne)

  still_used : (j : ℕ) → InTable j g' → j ≢ i → ¬ IsFree j g' → ¬ IsFree j g
  still_used j h ne used z = used (first_at j h ne ∙ z)

  abbrev Apart : ℕ → ℕ → Type 0
  Apart j k =
      ((entry_at j g').last_lba < (entry_at k g').first_lba)
      ⊎ ((entry_at k g').last_lba < (entry_at j g').first_lba)

  from_new : (j : ℕ) → InTable j g' → j ≢ i → ¬ IsFree j g' → Apart i j × Apart j i
  from_new j h ne used =
      let f = ap (λ e. e.first_lba) a.here in
      let l = ap (λ e. e.last_lba) a.here in
      let fj = first_at j h ne in
      let lj = last_at j h ne in
      elim (u.avoids j (back j h) (still_used j h ne used)) [
        | inl before ↦ (inr (omega arith), inl (omega arith))
        | inr after ↦ (inl (omega arith), inr (omega arith))
      ]

  pub Assigned-IsLaidOut : IsLaidOut g'
  Assigned-IsLaidOut = record {
    area = let old = v.area in omega (arith, first_usable, last_usable);
    small = let old = v.small in omega (arith, first_usable, last_usable);
    within = λ j h used. elim (ℕ_discrete j i) [
      | yes e' ↦
          let f = ap (λ e. e.first_lba) (ap (λ k. entry_at k g') e' ∙ a.here) in
          let l = ap (λ e. e.last_lba) (ap (λ k. entry_at k g') e' ∙ a.here) in
          let lo = u.from in
          let ord = u.order in let hi = u.upto in omega (arith, first_usable, last_usable)
      | no ne ↦
          let (lo, ord, hi) = v.within j (back j h) (still_used j h ne used) in
          omega (arith, first_usable, last_usable, first_at j h ne, last_at j h ne)
    ];
    disjoint = λ j k hj hk lt uj uk. elim (ℕ_discrete j i) [
      | yes e' ↦ subst (λ m. Apart m k) (sym e') (from_new k hk (λ z. omega arith) uk).0
      | no nej ↦ elim (ℕ_discrete k i) [
        | yes e' ↦ subst (λ m. Apart j m) (sym e') (from_new j hj nej uj).1
        | no nek ↦
            let fj = first_at j hj nej in
            let lj = last_at j hj nej in
            let fk = first_at k hk nek in
            let lk = last_at k hk nek in
            elim (v.disjoint j k (back j hj) (back k hk) lt (still_used j hj nej uj)
              (still_used k hk nek uk)) [
                | inl before ↦ inl (omega arith)
                | inr after ↦ inr (omega arith)
              ]
      ]
    ];
  }

-- In a well-formed table of disjoint partitions with a free slot, `gpt_entry_create` in a range of
-- unused blocks, with a name of at most 35 characters and 16 random bytes, makes a partition, and
-- the partitions are again disjoint and inside the usable area.
pub gpt_entry_create-IsLaidOut :
    {g : Gpt} (t : IsTable g) (name : List ℕ) (type : PartType) (flags first_lba last_lba : ℕ)
    (random : List ℕ)
    → IsLaidOut g
    → IsUnused g first_lba last_lba
    → gpt_next_index g ≢ 0
    → flags < 2 ^ 64
    → length name ≤ 35
    → All IsChar name
    → length random ≡ 16
    → All IsByte random
    → let (r, g') = gpt_entry_create g name type flags first_lba last_lba (some random) in
      (r ≢ 0)
      × IsTable g'
      × IsLaidOut g'
      × ((entry_at r g').first_lba ≡ first_lba)
      × ((entry_at r g').last_lba ≡ last_lba)
gpt_entry_create-IsLaidOut {g} t name type flags first_lba last_lba random v u free wf short chars
      long bytes =
    let small = v.small in
    let hi = u.upto in
    let ord = u.order in
    let (e, (uuid, is_uuid, made)) =
      gpt_entry_create-Assigned t name type flags first_lba last_lba random free wf (omega arith)
        (omega arith) short chars long bytes in
    let (inside, empty) = next_InTable g free in
    (
      λ z. free (sym e ∙ z),
      made.table,
      Assigned-IsLaidOut (gpt_next_index g) _ v inside empty made u,
      ap
            (λ k.
              (entry_at k
                (gpt_entry_create g name type flags first_lba last_lba (some random)).1).first_lba)
            e
          ∙ ap (λ x. x.first_lba) made.here,
      ap
            (λ k.
              (entry_at k
                (gpt_entry_create g name type flags first_lba last_lba (some random)).1).last_lba)
            e
          ∙ ap (λ x. x.last_lba) made.here,
    )
