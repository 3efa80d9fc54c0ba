-- ===== src/Gpt/Edit/Create.antt =====
-- `gpt_entry_create` and `gpt_entry_delete` of libgpt/gpt.c on a table.
use platform_bootable_iago.Base.{
  ℕ, ◌^◌, ◌≤◌, ◌<◌, ◌≡◌, ◌≢◌, refl, ap, sym, arith, List, Option, none, some, true, false, All,
  IsByte, length, splice, replicate, lt→ltb,
}
use mathlib.Core.Path.{subst}
use platform_bootable_iago.Gpt.Guid.{Guid, IsGuid, PartType, get_guid_type, generate_uuid}
use platform_bootable_iago.Gpt.Guid.Laws.{IsUuid, generate_uuid-IsUuid, get_guid_type-IsGuid}
use platform_bootable_iago.Gpt.Entry.{Entry, IsEntry, zero_entry}
use platform_bootable_iago.Gpt.Name.{gpt_entry_set_name}
use platform_bootable_iago.Gpt.Name.Laws.{IsChar, units, gpt_entry_set_name-some, set_name-IsEntry}
use platform_bootable_iago.Gpt.Table.{
  Gpt, IsTable, InTable, entry_at, set_entry, gpt_entry_get, gpt_next_index,
}
use platform_bootable_iago.Gpt.Table.Laws.{
  entry_at-set_self, entry_at-set_ne, set_entry-IsTable, entry_at-IsEntry,
}
use platform_bootable_iago.Gpt.Table.Scan.{IsFree, none_free, first_free, gpt_next_index-Found}
use platform_bootable_iago.Gpt.Edit.{gpt_entry_create, gpt_entry_delete, gpt_entry_set_type}

-- Entry `i` of the table has become `e`, and nothing else has changed.
pub record Assigned (i : ℕ) (e : Entry) (g g' : Gpt) : Type 0 where
  pub table : IsTable g'
  pub here : entry_at i g' ≡ e
  pub others : (j : ℕ) → InTable j g → j ≢ i → entry_at j g' ≡ entry_at j g
  pub header : g'.header ≡ g.header
  pub blocks : g'.lba_size ≡ g.lba_size

pub set_entry-Assigned :
    {g : Gpt} (i : ℕ) (e : Entry)
    → IsTable g
    → InTable i g
    → IsEntry e
    → Assigned i e g (set_entry i e g)
unfolding set_entry
set_entry-Assigned i e t h v = record {
  table = set_entry-IsTable t i e v;
  here = entry_at-set_self t i e h v;
  others = λ j hj ne. entry_at-set_ne t i j e h hj v (λ p. ne (sym p));
  header = refl;
  blocks = refl;
}

pub gpt_entry_get-some : (i : ℕ) (g : Gpt) → InTable i g → gpt_entry_get i g ≡ some (entry_at i g)
unfolding gpt_entry_get
gpt_entry_get-some i g h = ground arith

pub gpt_entry_get-none : (i : ℕ) (g : Gpt) → ¬ (InTable i g) → gpt_entry_get i g ≡ none
unfolding gpt_entry_get
gpt_entry_get-none i g h = ground (arith, outside)
  where
    outside : ((1 ≤ i) × (i ≤ g.header.num_pentries)) → ⊥
    outside p = h p

-- A free slot that was found is in the table.
pub next_InTable :
    (g : Gpt) → gpt_next_index g ≢ 0 → InTable (gpt_next_index g) g × IsFree (gpt_next_index g) g
next_InTable g ne = elim (gpt_next_index-Found g) [
  | none_free e all ↦ absurd (ne e)
  | first_free lo hi free all ↦ ((lo, omega arith), free)
]

-- The first free slot of a table.
abbrev pub IsFirstFree : ℕ → Gpt → Type 0
IsFirstFree i g = InTable i g × IsFree i g × ((j : ℕ) → InTable j g → j < i → ¬ IsFree j g)

next-IsFirstFree :
    (g : Gpt) → ((j : ℕ) × InTable j g × IsFree j g) → IsFirstFree (gpt_next_index g) g
next-IsFirstFree g (j, inside, here) = elim (gpt_next_index-Found g) [
  | none_free e all ↦ absurd (all j inside.0 (let hi = inside.1 in omega arith) here)
  | first_free lo hi free all ↦ ((lo, omega arith), free, λ k h lt. all k h.0 lt)
]

module _ {g : Gpt} (t : IsTable g) (name : List ℕ) (type : PartType) (flags first_lba last_lba : ℕ)
    (random : List ℕ) where
  -- The entry that `gpt_entry_create` leaves in the free slot `i`.
  abbrev pub created : ℕ → Guid → Entry
  created i uuid = record {
    type_guid = get_guid_type type;
    part_guid = uuid;
    first_lba = first_lba;
    last_lba = last_lba;
    flags = flags;
    name = splice 0 (units name) (entry_at i g).name;
  }

  -- What the slot holds before its name is set.
  abbrev pub half_created : ℕ → Entry
  half_created i = record (entry_at i g) {
    flags = flags;
    first_lba = first_lba;
    last_lba = last_lba;
  }

  module _ (free : gpt_next_index g ≢ 0) where
    create_eq :
        (uuid : Guid)
        → generate_uuid (some random) ≡ some uuid
        → length name ≤ 35
        → gpt_entry_create g name type flags first_lba last_lba (some random)
          ≡ (gpt_next_index g, set_entry (gpt_next_index g) (created (gpt_next_index g) uuid) g)
    unfolding gpt_entry_create gpt_entry_set_type
    create_eq uuid made short = rw (
      gpt_entry_get-some (gpt_next_index g) g (next_InTable g free).0,
      gpt_entry_set_name-some (half_created (gpt_next_index g)) name short,
      made,
      gpt_entry_create,
    )

    create_long_eq :
        (random : Option (List ℕ))
        → 35 < length name
        → gpt_entry_create g name type flags first_lba last_lba random
          ≡ (0, set_entry (gpt_next_index g) (half_created (gpt_next_index g)) g)
    unfolding gpt_entry_create gpt_entry_set_name
    create_long_eq random long = rw (
      gpt_entry_get-some (gpt_next_index g) g (next_InTable g free).0,
      lt→ltb 35 (length name) long,
      gpt_entry_create,
      gpt_entry_set_name,
    )

    module _ (wf : flags < 2 ^ 64) (wl : first_lba < 2 ^ 64) (wl' : last_lba < 2 ^ 64) where
      half_created-IsEntry : (i : ℕ) → InTable i g → IsEntry (half_created i)
      half_created-IsEntry i h =
          let v = entry_at-IsEntry t i h in
          record {
            type_ok = v.type_ok;
            part_ok = v.part_ok;
            first_wide = wl;
            last_wide = wl';
            flags_wide = wf;
            name_len = v.name_len;
            name_wide = v.name_wide;
          }

      created-IsEntry :
          (i : ℕ) (uuid : Guid)
          → InTable i g
          → IsGuid uuid
          → All IsChar name
          → IsEntry (created i uuid)
      created-IsEntry i uuid h guid chars =
          let v = set_name-IsEntry (half_created i) name (half_created-IsEntry i h) chars in
          record {
            type_ok = get_guid_type-IsGuid type;
            part_ok = guid;
            first_wide = wl;
            last_wide = wl';
            flags_wide = wf;
            name_len = v.name_len;
            name_wide = v.name_wide;
          }

      -- The slot that `gpt_next_index` finds is filled.
      pub gpt_entry_create-Assigned :
          length name ≤ 35
          → All IsChar name
          → length random ≡ 16
          → All IsByte random
          → let i = gpt_next_index g in
            let (r, g') = gpt_entry_create g name type flags first_lba last_lba (some random) in
            (r ≡ i) × ((uuid : Guid) × IsUuid random uuid × Assigned i (created i uuid) g g')
      gpt_entry_create-Assigned short chars long bytes =
          let (uuid, made, is_uuid) = generate_uuid-IsUuid random long bytes in
          let (inside, _) = next_InTable g free in
          rw (create_eq uuid made short) (
            refl,
            (
              uuid,
              is_uuid,
              set_entry-Assigned (gpt_next_index g) (created (gpt_next_index g) uuid) t inside
                  (created-IsEntry (gpt_next_index g) uuid inside is_uuid.guid chars),
            ),
          )

      -- In a well-formed table with a free slot, a name of more than 35 characters is reported by
      -- index 0, but the slot has by then been given the flags and the place that were asked for
      -- (64-bit numbers), and keeps them; nothing else changes.
      pub gpt_entry_create_long :
          (random : Option (List ℕ))
          → 35 < length name
          → let i = gpt_next_index g in
            let (r, g') = gpt_entry_create g name type flags first_lba last_lba random in
            (r ≡ 0) × Assigned i (half_created i) g g'
      gpt_entry_create_long random long =
          let (inside, _) = next_InTable g free in
          rw (create_long_eq random long) (
            refl,
            set_entry-Assigned (gpt_next_index g) (half_created (gpt_next_index g)) t inside
                (half_created-IsEntry (gpt_next_index g) inside),
          )

  -- In a well-formed table that has a free slot, for a name of at most 35 characters, 64-bit flags and
  -- addresses and 16 random bytes, `gpt_entry_create` fills the first free slot and returns its
  -- index: the slot then has the type, place, flags and name that were asked for and a fresh version
  -- 4 UUID, and no other entry and no field of the header changes.
  pub gpt_entry_create_lem :
      ((j : ℕ) × InTable j g × IsFree j g)
      → flags < 2 ^ 64
      → first_lba < 2 ^ 64
      → last_lba < 2 ^ 64
      → length name ≤ 35
      → All IsChar name
      → length random ≡ 16
      → All IsByte random
      → let (r, g') = gpt_entry_create g name type flags first_lba last_lba (some random) in
        IsFirstFree r g × ((uuid : Guid) × IsUuid random uuid × Assigned r (created r uuid) g g')
  gpt_entry_create_lem has_free wf wl wl' short chars long bytes =
      let i = gpt_next_index g in
      let first = next-IsFirstFree g has_free in
      let nonzero : i ≢ 0 = (let lo = first.0.0 in λ z. omega arith) in
      let (e, made) = gpt_entry_create-Assigned nonzero wf wl wl' short chars long bytes in
      subst
        (λ r.
          IsFirstFree r g
          × ((uuid : Guid) × IsUuid random uuid
              × Assigned r (created r uuid) g
                  (gpt_entry_create g name type flags first_lba last_lba (some random)).1))
        (sym e) (first, made)

-- In a table without a free entry `gpt_entry_create` returns 0 and changes nothing.
pub gpt_entry_create_full :
    (g : Gpt) (name : List ℕ) (type : PartType) (flags first_lba last_lba : ℕ)
    (random : Option (List ℕ))
    → ((j : ℕ) → InTable j g → ¬ IsFree j g)
    → gpt_entry_create g name type flags first_lba last_lba random ≡ (0, g)
unfolding gpt_entry_create
gpt_entry_create_full g name type flags first_lba last_lba random full =
    rw (gpt_entry_get-none (gpt_next_index g) g no_slot, gpt_entry_create)
  where
    no_slot : ¬ (InTable (gpt_next_index g) g)
    no_slot h = elim (gpt_next_index-Found g) [
      | none_free e all ↦ omega arith
      | first_free lo hi free all ↦ full (gpt_next_index g) h free
    ]

zero_entry-IsEntry : IsEntry zero_entry
unfolding replicate
zero_entry-IsEntry = omega arith

-- In a well-formed table, deleting an entry of the table frees its slot and changes no other entry; deleting at any other
-- index is refused and changes nothing.
pub gpt_entry_delete_lem :
    (g : Gpt) (i : ℕ)
    → IsTable g
    → let (done, g') = gpt_entry_delete g i in
      (InTable i g → (done ≡ true) × IsFree i g' × Assigned i zero_entry g g')
      × (¬ (InTable i g) → (done ≡ false) × (g' ≡ g))
unfolding gpt_entry_delete
gpt_entry_delete_lem g i t = (
  λ h.
      let made = set_entry-Assigned i zero_entry t h zero_entry-IsEntry in
      rw (gpt_entry_get-some i g h, gpt_entry_delete) (refl, ap (λ e. e.first_lba) made.here, made),
  λ h. rw (gpt_entry_get-none i g h, gpt_entry_delete) (refl, refl),
)
