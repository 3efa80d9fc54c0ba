-- ===== src/Partitioner/Create/Step.antt =====
-- One partition made by installer/partitioner.c `mkpart_cb`.
use platform_bootable_iago.Base.{
  ℕ, ◌+◌, ◌-◌, ◌*◌, ◌/◌, ◌^◌, ◌≤◌, ◌<◌, ◌≡◌, ◌≢◌, ◌⊎◌, inl, inr, refl, ap, ◌∙◌, sym, arith, List,
  ◌++◌, All, All-append, IsByte, some, false, ◌==◌, length, u64,
}
use mathlib.Core.Path.{subst}
use native.Mathlib.Decide.{ℕ_discrete}
use platform_bootable_iago.Gpt.Guid.{PartType}
use platform_bootable_iago.Gpt.Entry.{Entry}
use platform_bootable_iago.Gpt.Name.Laws.{IsChar}
use platform_bootable_iago.Gpt.Table.{Gpt, IsTable, InTable, entry_at, gpt_next_index}
use platform_bootable_iago.Gpt.Table.Scan.{IsFree}
use platform_bootable_iago.Gpt.Table.Slots.{free_slots, free_from, free_from-others}
use platform_bootable_iago.Gpt.Edit.{gpt_entry_create}
use platform_bootable_iago.Gpt.Edit.Create.{Assigned, next_InTable, gpt_entry_create-Assigned}
use platform_bootable_iago.Gpt.FreeSpace.Largest.{IsLaidOut, IsUnused}
use platform_bootable_iago.Gpt.FreeSpace.Place.{Assigned-IsLaidOut}
use platform_bootable_iago.Options.{Hashmap}
use platform_bootable_iago.Partitioner.Sizes.{to_mib, to_mib_floor, mib_to_lba}
use platform_bootable_iago.Partitioner.Sizes.Laws.{mib_to_lba-within, mib_to_lba_mono}
use platform_bootable_iago.Partitioner.Android.{name_magic}
use platform_bootable_iago.Partitioner.Create.{
  MkpartCtx, Session, next_random, more_random, make_partition, partition_key, device_field,
  index_field,
}
use platform_bootable_iago.Gpt.Name.{decimal, gpt_get_device_node}

-- No partition has a block from `a` on and up to `b`, inside the usable area.
pub record Clear (g : Gpt) (a b : ℕ) : Type 0 where
  pub from : g.header.first_usable_lba ≤ a
  pub upto : b ≤ g.header.last_usable_lba
  pub avoids :
      (i : ℕ)
      → InTable i g
      → ¬ IsFree i g
      → ((entry_at i g).last_lba < a) ⊎ (b < (entry_at i g).first_lba)

Clear-IsUnused : {g : Gpt} (a m b : ℕ) → Clear g a b → a ≤ m → m ≤ b → IsUnused g a m
Clear-IsUnused a m b c lo hi = record {
  from = c.from;
  order = lo;
  upto = let up = c.upto in omega arith;
  avoids = λ i h used. elim (c.avoids i h used) [
    | inl before ↦ inl before
    | inr after ↦ inr (omega arith)
  ];
}

-- What is left of a clear range behind the partition that was put at its start.
Assigned-Clear :
    {g g' : Gpt} (i : ℕ) (e : Entry) (m b : ℕ)
    → Assigned i e g g'
    → Clear g e.first_lba b
    → e.last_lba < m
    → e.first_lba ≤ m
    → Clear g' m b
Assigned-Clear {g} {g'} i e m b a c before order = record {
  from = let from = c.from in let eq = ap (λ h. h.first_usable_lba) a.header in omega arith;
  upto = let upto = c.upto in let eq = ap (λ h. h.last_usable_lba) a.header in omega arith;
  avoids = λ j h used. elim (ℕ_discrete j i) [
    | yes e' ↦
        let last = ap (λ x. x.last_lba) (ap (λ k. entry_at k g') e' ∙ a.here) in inl (omega arith)
    | no ne ↦
        let inside : InTable j g =
          (h.0, let hi = h.1 in let num = ap (λ x. x.num_pentries) a.header in omega arith) in
        let same = a.others j inside ne in
        let first = ap (λ x. x.first_lba) same in
        let last = ap (λ x. x.last_lba) same in
        elim (c.avoids j inside (λ z. used (first ∙ z))) [
          | inl lower ↦ inl (omega arith)
          | inr higher ↦ inr (omega arith)
        ]
  ];
}

-- The table of a session is well formed, its partitions are disjoint, and the blocks from that of
-- `next_mb` on, up to `end_lba`, are clear.
pub record Ready (end_lba : ℕ) (mc : MkpartCtx) : Type 0 where
  pub table : IsTable mc.gpt
  pub laid_out : IsLaidOut mc.gpt
  pub clear : Clear mc.gpt (mib_to_lba mc.gpt mc.next_mb) end_lba

-- The range of blocks that partitions are made in, on a disk of fewer than 2^64 bytes with blocks
-- of 1 MiB at most.
pub record IsRange (g : Gpt) (start_lba end_lba : ℕ) : Type 0 where
  pub block : g.lba_size ≢ 0
  pub fits : g.lba_size ≤ 2 ^ 20
  pub order : start_lba ≤ end_lba
  pub small : (end_lba + 1) * g.lba_size + 2 ^ 20 < 2 ^ 64

module _ (hm : Hashmap) (entry : List ℕ) (type : PartType) (flags part_mb start_lba end_lba : ℕ)
    (s : Session hm) (random : List ℕ) where
  -- What `mkpart_cb` has made.
  pub record Made (s' : Session hm) : Type 0 where
    pub index : InTable s'.mc.ptn_index s'.mc.gpt
    pub first : (entry_at s'.mc.ptn_index s'.mc.gpt).first_lba ≡ mib_to_lba s.mc.gpt s.mc.next_mb
    pub last :
        (entry_at s'.mc.ptn_index s'.mc.gpt).last_lba + 1
        ≡ mib_to_lba s.mc.gpt (s.mc.next_mb + part_mb)
    pub next : s'.mc.next_mb ≡ s.mc.next_mb + part_mb
    pub ready : Ready end_lba s'.mc
    pub kept :
        (j : ℕ)
        → InTable j s.mc.gpt
        → ¬ IsFree j s.mc.gpt
        → entry_at j s'.mc.gpt ≡ entry_at j s.mc.gpt
    pub slots : free_slots s.mc.gpt ≤ free_slots s'.mc.gpt + 1
    pub header : s'.mc.gpt.header ≡ s.mc.gpt.header
    pub blocks : s'.mc.gpt.lba_size ≡ s.mc.gpt.lba_size
    pub context :
        (s'.mc.ptn_mb ≡ s.mc.ptn_mb)
        × (s'.mc.disk_mb ≡ s.mc.disk_mb)
        × (s'.mc.skip_bootloader ≡ s.mc.skip_bootloader)
    pub entropy : s'.entropy ≡ more_random hm s.entropy
    pub opts :
        (k : List ℕ)
        → partition_key entry device_field ≢ k
        → partition_key entry index_field ≢ k
        → hm.get k s'.opts ≡ hm.get k s.opts

  module _ (r : Ready end_lba s.mc) (range : IsRange s.mc.gpt start_lba end_lba)
      (lo : to_mib (u64 (start_lba * s.mc.gpt.lba_size)) ≤ s.mc.next_mb) (some_mb : 1 ≤ part_mb)
      (hi : s.mc.next_mb + part_mb ≤ to_mib_floor (u64 ((end_lba + 1) * s.mc.gpt.lba_size))) where
    abbrev first_lba : ℕ
    first_lba = mib_to_lba s.mc.gpt s.mc.next_mb

    abbrev end_mb : ℕ
    end_mb = s.mc.next_mb + part_mb

    abbrev behind : ℕ
    behind = mib_to_lba s.mc.gpt end_mb

    grows : first_lba < behind
    grows =
        mib_to_lba_mono s.mc.gpt start_lba end_lba range.block range.order range.small s.mc.next_mb
          end_mb (omega arith) hi range.fits

    within : behind ≤ end_lba + 1
    within =
        (mib_to_lba-within s.mc.gpt start_lba end_lba range.block range.order range.small end_mb
          (omega arith) hi).1

    no_wrap : u64 end_mb ≡ end_mb
    unfolding to_mib_floor
    no_wrap = omega arith

    same_block : (g' : Gpt) → g'.lba_size ≡ s.mc.gpt.lba_size → mib_to_lba g' end_mb ≡ behind
    unfolding mib_to_lba
    same_block g' e = ap (λ n. u64 (end_mb * 2 ^ 20) / n) e

    abbrev last_lba : ℕ
    last_lba = u64 (behind + 2 ^ 64 - 1)

    last_eq : last_lba + 1 ≡ behind
    last_eq = let small = r.laid_out.small in let up = r.clear.upto in omega (arith, within, grows)

    -- With a free slot, a name of at most 27 characters, 64-bit flags and 16 random bytes, where at
    -- least 1 MiB is asked for and fits into the clear range, the partition is made.
    pub make_partition_lem :
        gpt_next_index s.mc.gpt ≢ 0
        → flags < 2 ^ 64
        → length entry ≤ 27
        → All IsChar entry
        → next_random hm s.entropy ≡ some random
        → length random ≡ 16
        → All IsByte random
        → (s' : Session hm) × (make_partition hm entry type flags part_mb s ≡ some s') × Made s'
    unfolding make_partition
    make_partition_lem free wf short chars read long bytes =
        let small = r.laid_out.small in
        let up = r.clear.upto in
        let (e, (uuid, is_uuid, made)) =
          gpt_entry_create-Assigned r.table (name_magic ++ entry) type flags first_lba last_lba
            random free wf (omega (arith, within, grows)) (omega arith) (omega arith)
            (All-append IsChar name_magic entry (omega arith) chars) long bytes in
        let (inside, empty) = next_InTable s.mc.gpt free in
        let unused : IsUnused s.mc.gpt first_lba last_lba =
          Clear-IsUnused first_lba last_lba end_lba r.clear (omega (arith, last_eq, grows))
            (omega (arith, last_eq, within)) in
        let not_zero : (g_made.0 == 0) ≡ false = ground arith in
        let here = ap (λ k. entry_at k g_made.1) e ∙ made.here in
        (
          session,
          rw (no_wrap, read, not_zero) refl,
          record {
            index = let num = ap (λ h. h.num_pentries) made.header in omega arith;
            first = ap (λ x. x.first_lba) here;
            last = ap (λ x. x.last_lba + 1) here ∙ last_eq;
            next = refl;
            ready = record {
              table = made.table;
              laid_out =
                  Assigned-IsLaidOut (gpt_next_index s.mc.gpt) _ r.laid_out inside empty made
                    unused;
              clear =
                  subst (λ m. Clear g_made.1 m end_lba) (sym (same_block g_made.1 made.blocks))
                    (Assigned-Clear (gpt_next_index s.mc.gpt) _ behind end_lba made r.clear
                      (omega (arith, last_eq)) (omega (arith, grows)));
            };
            kept = λ j h used.
                made.others j h (λ z. used (subst (λ k. IsFree k s.mc.gpt) (sym z) empty));
            slots =
                subst (λ n. free_slots s.mc.gpt ≤ free_from n 1 g_made.1 + 1)
                  (sym (ap (λ h. h.num_pentries) made.header))
                  (free_from-others s.mc.gpt g_made.1 (gpt_next_index s.mc.gpt)
                    s.mc.gpt.header.num_pentries 1
                    (λ j lo hi ne. made.others j (lo, omega arith) ne));
            header = made.header;
            blocks = made.blocks;
            context = (refl, refl, refl);
            entropy = refl;
            opts = λ k not_device not_index.
                hm.get-put_other (partition_key entry device_field) k _ _ not_device
                ∙ hm.get-put_other (partition_key entry index_field) k _ _ not_index;
          },
        )
      where
        g_made : ℕ × Gpt
        g_made =
            gpt_entry_create s.mc.gpt (name_magic ++ entry) type flags first_lba last_lba
              (some random)

        session : Session hm
        session = record {
          opts =
              hm.put (partition_key entry device_field) (gpt_get_device_node g_made.0 g_made.1)
                (hm.put (partition_key entry index_field) (decimal g_made.0) s.opts);
          entropy = more_random hm s.entropy;
          mc = record s.mc { gpt = g_made.1; ptn_index = g_made.0; next_mb = end_mb };
        }
