-- ===== src/Partitioner/Prepare/Laws.antt =====
-- Which disks are in the list that installer/partitioner.c `partitioner_prepare` makes.
use platform_bootable_iago.Base.{
  ℕ, zero, suc, ◌+◌, ◌≤◌, ◌<◌, ◌≡◌, refl, ap, ◌∙◌, sym, arith, Bool, false, Bool-cases, inl, inr,
  List, [], ◌∷◌, ◌++◌, All, Option, none, some, ◌==◌, if◌then◌else◌, length, bytes_eq, codes,
}
use mathlib.Core.List.{append-nil, append_assoc}
use mathlib.Core.Option.{some-injective, none-ne-some}
use platform_bootable_iago.Gpt.Header.{Header}
use platform_bootable_iago.Gpt.Disk.{Host, gpt_read}
use platform_bootable_iago.Gpt.Init.{gpt_init}
use platform_bootable_iago.Options.{Hashmap, cut, entries_of}
use platform_bootable_iago.Options.Append.{
  IsWord, string_list_append, entries_of-string_list_append,
}
use platform_bootable_iago.Partitioner.Create.{◌>>=◌}
use platform_bootable_iago.Partitioner.Prepare.{
  BlockDev, put_sizes, with_table, put_table, prepare_disk, prepare_disks, prepare_from_attempt,
  is_interactive, partitioner_prepare,
}

-- What a step that came to a result went through.
bind-some {ℓ κ} :
    {A : Type ℓ} {B : Type κ} (r : Option A) (f : A → Option B) (b : B)
    → (r >>= f) ≡ some b
    → (a : A) × (r ≡ some a) × (f a ≡ some b)
bind-some none f b e = absurd (none-ne-some b e)
bind-some (some a) f b e = (a, refl, e)

module _ (skip : List ℕ → Bool) (media : List ℕ) where
  -- The names of the disks that are neither ignored nor the installation media, in order.
  unfoldable pub kept : List BlockDev → List (List ℕ)
  kept [] = []
  kept (d ∷ ds) =
      let rest = kept ds in
      if skip d.name then rest else if bytes_eq d.name media then rest else d.name ∷ rest

some_word : (l : List ℕ) (n : ℕ) → (length l == 0) ≡ false → (n ≡ 0 → l ≡ []) → 1 ≤ n
some_word l zero filled none_there =
    let gone = none_there refl in absurd (ground (arith, gone, filled))
some_word l (suc n) filled none_there = omega arith

abbrev pub HasWord : BlockDev → Type 0
HasWord d = IsWord d.name

module _ (hm : Hashmap) (skip : List ℕ → Bool) (media : List ℕ) where
  -- The disks of attempt `k` are those of the list, and there is one.
  pub record Found (scan : ℕ → Option (List BlockDev)) (opts' : hm.Map) (k : ℕ) : Type 0 where
    pub ds : List BlockDev
    pub disks : List ℕ
    pub there : scan k ≡ some ds
    pub stored : hm.get (codes "base:disks") opts' ≡ some disks
    pub names : entries_of disks ≡ kept skip media ds
    pub some_disk : 1 ≤ length (kept skip media ds)

module _ (hm : Hashmap) (host : Host) (memory : Header) (interactive : Bool) where
  prepare_disk-append :
      (d : BlockDev) (st st' : hm.Map × List ℕ)
      → prepare_disk hm host memory interactive d st ≡ some st'
      → st'.1 ≡ string_list_append st.1 d.name
  unfolding prepare_disk
  prepare_disk-append d st st' e =
      let (opts1, _, e1) = bind-some (put_sizes hm d st.0) _ st' e in
      let (g, _, e2) =
        bind-some (gpt_init memory (codes "/dev/block/" ++ d.name) d.sysfs) _ st' e1 in
      let (opts2, _, e3) =
        bind-some
          (with_table hm (gpt_read host d.device g d.device.sched)
            (λ g'. put_table hm interactive d g' opts1) opts1)
          _ st' e2 in
      ap (λ s. s.1) (sym (some-injective _ _ e3))

  module _ (skip : List ℕ → Bool) (media : List ℕ) where
    -- The list after the disks: the entries that it had, and the names that were kept.
    abbrev Lists : List BlockDev → List ℕ → List ℕ → Type 0
    Lists ds before behind =
        (entries_of behind ≡ entries_of before ++ kept skip media ds)
        × (length (kept skip media ds) ≡ 0 → behind ≡ before)

    prepare_disks-Lists :
        (ds : List BlockDev) (st st' : hm.Map × List ℕ)
        → prepare_disks hm host memory interactive skip media ds st ≡ some st'
        → All HasWord ds
        → Lists ds st.1 st'.1
    unfolding prepare_disks kept
    prepare_disks-Lists [] st st' e words =
        let same = ap (λ s. s.1) (sym (some-injective st st' e)) in
        (ap entries_of same ∙ sym (append-nil (entries_of st.1)), λ z. same)
    prepare_disks-Lists (d ∷ ds) st st' e words = elim (Bool-cases (skip d.name)) [
      | inl skipped ↦ rw skipped (prepare_disks-Lists ds st st' (rw skipped at e) words.1)
      | inr wanted ↦ elim (Bool-cases (bytes_eq d.name media)) [
        | inl same ↦
            rw (wanted, same) (prepare_disks-Lists ds st st' (rw (wanted, same) at e) words.1)
        | inr other ↦
            let (s1, here, later) =
              bind-some (prepare_disk hm host memory interactive d st) _ st'
                (rw (wanted, other) at e) in
            let (es, same) = prepare_disks-Lists ds s1 st' later words.1 in
            let names = kept skip media ds in
            rw (wanted, other)
              (
                es
                    ∙ ap (λ l. entries_of l ++ names) (prepare_disk-append d st s1 here)
                    ∙ ap (λ z. z ++ names) (entries_of-string_list_append st.1 d.name words.0)
                    ∙ append_assoc (entries_of st.1) (d.name ∷ []) names,
                λ z. absurd (omega (arith, z)),
              )
      ]
    ]

    attempt-Found :
        (left : ℕ) (scan : ℕ → Option (List BlockDev)) (n : ℕ) (opts opts' : hm.Map)
        → ((k : ℕ) (ds : List BlockDev) → scan k ≡ some ds → All HasWord ds)
        → prepare_from_attempt hm host memory interactive skip media left scan n opts ≡ some opts'
        → (k : ℕ) × (n ≤ k) × (k < n + left) × Found hm skip media scan opts' k
    unfolding prepare_from_attempt entries_of cut
    attempt-Found zero scan n opts opts' words e = absurd (none-ne-some opts' e)
    attempt-Found (suc left) scan n opts opts' words e =
        let (ds, there, e1) = bind-some (scan n) _ opts' e in
        let (st, ran, e2) =
          bind-some (prepare_disks hm host memory interactive skip media ds (opts, [])) _ opts'
            e1 in
        let (names, none_kept) = prepare_disks-Lists ds (opts, []) st ran (words n ds there) in
        elim (Bool-cases (length st.1 == 0)) [
          | inl empty ↦
              let (k, low, high, f) =
                attempt-Found left scan (n + 1) st.0 opts' words (rw empty at e2) in
              (k, omega arith, omega arith, f)
          | inr filled ↦
              let done = some-injective _ _ (rw filled at e2) in
              (
                n,
                omega arith,
                omega arith,
                record {
                  ds = ds;
                  disks = st.1;
                  there = there;
                  stored = ap (hm.get (codes "base:disks")) (sym done) ∙ hm.get-put_same _ _ _;
                  names = names;
                  some_disk = some_word st.1 _ filled none_kept;
                },
              )
        ]

-- Where `partitioner_prepare` comes to its end, and no name of a disk has a space in it, one of the
-- six attempts, `k`, found a disk to install on: the option "base:disks" is a string list, and
-- `string_list_iterate` finds in it exactly the disks of that attempt that are neither ignored nor
-- the installation media, in their order.
pub partitioner_prepare-Found :
    (hm : Hashmap) (host : Host) (memory : Header) (skip : List ℕ → Bool) (media : List ℕ)
    (scan : ℕ → Option (List BlockDev)) (opts opts' : hm.Map)
    → ((k : ℕ) (ds : List BlockDev) → scan k ≡ some ds → All HasWord ds)
    → partitioner_prepare hm host memory skip media scan opts ≡ some opts'
    → (k : ℕ) × (k < 6) × Found hm skip media scan opts' k
unfolding partitioner_prepare
partitioner_prepare-Found hm host memory skip media scan opts opts' words e =
    let (interactive, _, e1) = bind-some (is_interactive hm opts) _ opts' e in
    let (k, low, high, f) =
      attempt-Found hm host memory interactive skip media 6 scan 0 opts opts' words e1 in
    (k, omega (arith, high), f)
