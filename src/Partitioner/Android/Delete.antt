-- ===== src/Partitioner/Android/Delete.antt =====
-- What installer/partitioner.c `delete_android` leaves of a table.
use platform_bootable_iago.Base.{
  ℕ, zero, suc, ◌+◌, ◌≤◌, ◌<◌, ◌≡◌, ◌≢◌, inl, inr, refl, ap, ◌∙◌, sym, arith, Bool, false, not,
  ◌&&◌, List, [], ◌∷◌, All, Option, none, some, ◌==◌, ==_iff, Bool-cases, if◌then◌else◌,
}
use mathlib.Core.Path.{subst}
use native.Mathlib.Decide.{ℕ_discrete}
use platform_bootable_iago.Gpt.Entry.{Entry, zero_entry}
use platform_bootable_iago.Gpt.Name.{gpt_entry_get_name}
use platform_bootable_iago.Gpt.Table.{Gpt, IsTable, InTable, entry_at, partitions}
use platform_bootable_iago.Gpt.Table.Scan.{partitions_iff}
use platform_bootable_iago.Gpt.Edit.{gpt_entry_delete}
use platform_bootable_iago.Gpt.Edit.Create.{Assigned, gpt_entry_delete_lem}
use platform_bootable_iago.Partitioner.Android.{
  is_android, add_sizes, check_for_android, delete_if_android, delete_from, delete_android,
}

-- An entry that is in use has a name with a NUL.
abbrev pub HasName : Entry → Type 0
HasName e = e.first_lba ≢ 0 → (name : List ℕ) × (gpt_entry_get_name e ≡ some name)

abbrev pub android_name : Option (List ℕ) → Bool
android_name none = false
android_name (some name) = is_android name

-- What an entry is to become: the Android partitions are cleared, the others stay.
abbrev pub kept : Entry → Entry
kept e = if not (e.first_lba == 0) && android_name (gpt_entry_get_name e) then zero_entry else e

delete_if_android_lem :
    {g : Gpt} (i : ℕ)
    → IsTable g
    → InTable i g
    → HasName (entry_at i g)
    → (g' : Gpt) × (delete_if_android i g ≡ some g') × Assigned i (kept (entry_at i g)) g g'
unfolding delete_if_android
delete_if_android_lem {g} i t h named = elim (Bool-cases ((entry_at i g).first_lba == 0)) [
  | inl free ↦ (g, rw free refl, rw free same)
  | inr used ↦
      let (name, e) = named (λ z. ground arith) in
      let (deleted, _) = gpt_entry_delete_lem g i t in
      let (done, _, made) = deleted h in
      elim (Bool-cases (is_android name)) [
        | inl yes_android ↦ (
          (gpt_entry_delete g i).1,
          rw (used, e, yes_android, done) refl,
          rw (used, e, yes_android) made,
        )
        | inr other ↦ (g, rw (used, e, other) refl, rw (used, e, other) same)
      ]
]
  where
    same : Assigned i (entry_at i g) g g
    same = record { table = t; here = refl; others = λ j hj ne. refl; header = refl; blocks = refl }

-- The table after the entries from `i` on, `n` of them, have been gone through.
record Swept (i n : ℕ) (g g' : Gpt) : Type 0 where
  table : IsTable g'
  header : g'.header ≡ g.header
  inside : (j : ℕ) → i ≤ j → j < i + n → entry_at j g' ≡ kept (entry_at j g)
  outside : (j : ℕ) → InTable j g → j < i → entry_at j g' ≡ entry_at j g

delete_from-Swept :
    (n i : ℕ) (g : Gpt)
    → IsTable g
    → 1 ≤ i
    → i + n ≡ g.header.num_pentries + 1
    → ((j : ℕ) → i ≤ j → j < i + n → HasName (entry_at j g))
    → (g' : Gpt) × (delete_from n i g ≡ some g') × Swept i n g g'
unfolding delete_from
delete_from-Swept zero i g t lo hi named = (
  g,
  refl,
  record {
    table = t;
    header = refl;
    inside = λ j a b. absurd (omega arith);
    outside = λ j h lt. refl;
  },
)
delete_from-Swept (suc n) i g t lo hi named =
    let (g1, e1, a) =
      delete_if_android_lem i t (lo, omega arith) (named i (omega arith) (omega arith)) in
    let num = ap (λ h. h.num_pentries) a.header in
    let there : (j : ℕ) → i + 1 ≤ j → j < i + 1 + n → entry_at j g1 ≡ entry_at j g =
      λ j x y. a.others j (omega arith) (λ e. omega arith) in
    let (g2, e2, s) =
      delete_from-Swept n (i + 1) g1 a.table (omega arith) (omega arith)
        (λ j x y. subst HasName (sym (there j x y)) (named j (omega arith) (omega arith))) in
    (
      g2,
      rw (e1, delete_from) e2,
      record {
        table = s.table;
        header = s.header ∙ a.header;
        inside = λ j x y. elim (ℕ_discrete i j) [
          | yes e ↦
              subst (λ k. entry_at k g2 ≡ kept (entry_at k g)) e
                (s.outside i (omega arith) (omega arith) ∙ a.here)
          | no ne ↦
              s.inside j (omega arith) (omega arith) ∙ ap kept (there j (omega arith) (omega arith))
        ];
        outside =
            λ j h lt. s.outside j (omega arith) (omega arith) ∙ a.others j h (λ e. omega arith);
      },
    )

module _ {g : Gpt} (t : IsTable g) (named : (j : ℕ) → InTable j g → HasName (entry_at j g)) where
  -- In a well-formed table whose partitions have names that end, `delete_android` returns; it clears
  -- exactly the partitions whose names begin with "android_", but for "android_bootloader", and
  -- changes neither the other entries nor the header.
  pub delete_android_lem :
      (g' : Gpt) × (delete_android g ≡ some g')
      × IsTable g'
      × (g'.header ≡ g.header)
      × ((j : ℕ) → InTable j g → entry_at j g' ≡ kept (entry_at j g))
  unfolding delete_android
  delete_android_lem =
      let (g', e, s) =
        delete_from-Swept g.header.num_pentries 1 g t (omega arith) (omega arith)
          (λ j x y. named j (omega arith)) in
      (g', e, s.table, s.header, λ j h. s.inside j h.0 (let hi = h.1 in omega arith))

-- Partitions with names that end, none of them Android's.
abbrev Others : ℕ × Entry → Type 0
Others p = (name : List ℕ) × (gpt_entry_get_name p.1 ≡ some name) × (is_android name ≡ false)

add_sizes-none :
    (g : Gpt) (ps : List (ℕ × Entry)) (size : ℕ) → All Others ps → add_sizes g ps size ≡ some size
unfolding add_sizes
add_sizes-none g [] size h = refl
add_sizes-none g (p ∷ ps) size h =
    let ((name, e, other), rest) = h in rw (e, other, add_sizes) (add_sizes-none g ps size rest)

module _ {g : Gpt} (t : IsTable g) (named : (j : ℕ) → InTable j g → HasName (entry_at j g)) where
  -- An entry that is kept and in use is not one of Android's.
  kept-Others : (e : Entry) (i : ℕ) → HasName e → (kept e).first_lba ≢ 0 → Others (i, kept e)
  kept-Others e i has used = elim (Bool-cases (e.first_lba == 0)) [
    | inl free ↦ absurd (rw free at used ((==_iff e.first_lba 0).0 free))
    | inr taken ↦
        let (name, n) = has (λ z. ground arith) in
        elim (Bool-cases (is_android name)) [
          | inl yes_android ↦ absurd (rw (taken, n, yes_android) at used refl)
          | inr other ↦ rw (taken, n, other) (name, n, other)
        ]
  ]

  -- After `delete_android` on such a table, `check_for_android` finds no Android installation.
  pub check_for_android-delete_android :
      (g' : Gpt) × (delete_android g ≡ some g') × (check_for_android g' ≡ some 0)
  unfolding check_for_android
  check_for_android-delete_android =
      let (g', e, t', same, all) = delete_android_lem t named in
      (
        g',
        e,
        add_sizes-none g' (partitions g') 0 (
            (partitions_iff g' Others).1 (λ j h used.
              let h' : InTable j g =
                (h.0, let hi = h.1 in let num = ap (λ x. x.num_pentries) same in omega arith) in
              subst (λ x. Others (j, x)) (sym (all j h'))
                (kept-Others (entry_at j g) j (named j h')
                  (λ z. used (ap (λ x. x.first_lba) (all j h') ∙ z))))),
      )
