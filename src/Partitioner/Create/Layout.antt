-- ===== src/Partitioner/Create/Layout.antt =====
-- The partitions that installer/partitioner.c `create_android_partitions` makes one after another.
use platform_bootable_iago.Base.{
  ℕ, zero, suc, ◌+◌, ◌*◌, ◌/◌, ◌^◌, ◌≤◌, ◌≡◌, refl, ap, ◌∙◌, sym, arith, List, [], ◌∷◌, map, All,
  IsByte, Option, none, some, length, u64,
}
use mathlib.Core.Path.{subst}
use platform_bootable_iago.Gpt.Guid.{PartType}
use platform_bootable_iago.Gpt.Table.{Gpt, InTable, entry_at}
use platform_bootable_iago.Gpt.Table.Scan.{IsFree}
use platform_bootable_iago.Gpt.Table.Slots.{free_slots, free_slots-next}
use platform_bootable_iago.Options.{Hashmap, iterate}
use platform_bootable_iago.Partitioner.Sizes.{to_mib, to_mib_floor, mib_to_lba}
use platform_bootable_iago.Partitioner.Create.{Session, next_random, more_random, mkpart_cb}
use platform_bootable_iago.Partitioner.Create.Step.{Ready, IsRange, Made, make_partition_lem}
use platform_bootable_iago.Partitioner.Create.Wants.{Wants, wide, mkpart_cb-eq, Made-Wants}

-- Names and sizes in MiB of the partitions to be made.
abbrev pub Plan : Type 0
Plan = List (List ℕ × ℕ)

abbrev pub total : Plan → ℕ
total [] = 0
total ((entry, mb) ∷ ps) = mb + total ps

-- A partition of the blocks from `a` on and up to, but not including, `b`.
abbrev pub HasPartition : Gpt → ℕ → ℕ → Type 0
HasPartition g a b =
    (i : ℕ) × InTable i g × ((entry_at i g).first_lba ≡ a) × ((entry_at i g).last_lba + 1 ≡ b)

-- The partitions of a plan, side by side from `mb` on.
abbrev pub Laid : Gpt → ℕ → Plan → Type 0
Laid g mb [] = Unit {0}
Laid g mb ((entry, n) ∷ ps) =
    HasPartition g (mib_to_lba g mb) (mib_to_lba g (mb + n)) × Laid g (mb + n) ps

-- `n` reads of 16 random bytes to come.
abbrev pub Supplies : ℕ → List (Option (List ℕ)) → Type 0
Supplies zero rs = Unit {0}
Supplies (suc n) [] = ⊥
Supplies (suc n) (none ∷ rs) = ⊥
Supplies (suc n) (some r ∷ rs) = (length r ≡ 16) × All IsByte r × Supplies n rs

-- The partitions that a table has stay where they are.
pub record Kept (g g' : Gpt) : Type 0 where
  pub header : g'.header ≡ g.header
  pub blocks : g'.lba_size ≡ g.lba_size
  pub entries : (j : ℕ) → InTable j g → ¬ IsFree j g → entry_at j g' ≡ entry_at j g

Kept-InTable : {g g' : Gpt} (j : ℕ) → Kept g g' → InTable j g → InTable j g'
Kept-InTable j k h =
    (h.0, let hi = h.1 in let num = ap (λ x. x.num_pentries) k.header in omega arith)

Kept-IsUsed : {g g' : Gpt} (j : ℕ) → Kept g g' → InTable j g → ¬ IsFree j g → ¬ IsFree j g'
Kept-IsUsed j k h used z = used (sym (ap (λ x. x.first_lba) (k.entries j h used)) ∙ z)

Kept-trans : {g1 g2 g3 : Gpt} → Kept g1 g2 → Kept g2 g3 → Kept g1 g3
Kept-trans a b = record {
  header = b.header ∙ a.header;
  blocks = b.blocks ∙ a.blocks;
  entries =
      λ j h used. b.entries j (Kept-InTable j a h) (Kept-IsUsed j a h used) ∙ a.entries j h used;
}

mib_to_lba-same :
    (g g' : Gpt) (mb : ℕ) → g'.lba_size ≡ g.lba_size → mib_to_lba g' mb ≡ mib_to_lba g mb
unfolding mib_to_lba
mib_to_lba-same g g' mb e = ap (λ n. u64 (mb * 2 ^ 20) / n) e

module _ (hm : Hashmap) where
  -- The next read of a supply.
  next_supply :
      (n : ℕ) (rs : List (Option (List ℕ)))
      → Supplies (suc n) rs
      → (r : List ℕ) × (next_random hm rs ≡ some r)
        × (length r ≡ 16)
        × All IsByte r
        × Supplies n (more_random hm rs)
  next_supply n [] h = absurd h
  next_supply n (none ∷ rs) h = absurd h
  next_supply n (some r ∷ rs) h = (r, refl, h.0, h.1, h.2)

  -- What the loop has done.
  pub record Done (plan : Plan) (end_lba : ℕ) (s s' : Session hm) : Type 0 where
    pub ready : Ready end_lba s'.mc
    pub next : s'.mc.next_mb ≡ s.mc.next_mb + total plan
    pub laid : Laid s'.mc.gpt s.mc.next_mb plan
    pub kept : Kept s.mc.gpt s'.mc.gpt

  -- What the loop needs.
  pub record Can (plan : Plan) (start_lba end_lba : ℕ) (s : Session hm) : Type 0 where
    pub ready : Ready end_lba s.mc
    pub range : IsRange s.mc.gpt start_lba end_lba
    pub usable : 1 ≤ s.mc.gpt.header.first_usable_lba
    pub lo : to_mib (u64 (start_lba * s.mc.gpt.lba_size)) ≤ s.mc.next_mb
    pub hi : s.mc.next_mb + total plan ≤ to_mib_floor (u64 ((end_lba + 1) * s.mc.gpt.lba_size))
    pub wants : All (λ (entry, mb). Wants hm s entry mb) plan
    pub slots : length plan ≤ free_slots s.mc.gpt
    pub random : Supplies (length plan) s.entropy

  module _ (entry : List ℕ) (mb : ℕ) (ps : Plan) (type : PartType) (flags start_lba end_lba : ℕ)
      (random : List ℕ) (s s1 : Session hm) (c : Can ((entry, mb) ∷ ps) start_lba end_lba s)
      (m : Made hm entry type flags mb start_lba end_lba s random s1) where
    still-Wants :
        (qs : Plan)
        → All (λ (entry, mb). Wants hm s entry mb) qs
        → All (λ (entry, mb). Wants hm s1 entry mb) qs
    still-Wants [] h = tt
    still-Wants (q ∷ qs) h = (Made-Wants hm m h.0, still-Wants qs h.1)

    next_Can : Supplies (length ps) (more_random hm s.entropy) → Can ps start_lba end_lba s1
    next_Can more = record {
      ready = m.ready;
      range = record {
        block = rw m.blocks c.range.block;
        fits = rw m.blocks c.range.fits;
        order = c.range.order;
        small = rw m.blocks c.range.small;
      };
      usable = rw m.header c.usable;
      lo = rw m.blocks (let lo = c.lo in let next = m.next in omega arith);
      hi = rw (m.blocks, m.next) (let hi = c.hi in omega arith);
      wants = still-Wants ps c.wants.1;
      slots = let slots = c.slots in let more = m.slots in omega arith;
      random = subst (Supplies (length ps)) (sym m.entropy) more;
    }

    made_Kept : Kept s.mc.gpt s1.mc.gpt
    made_Kept = record { header = m.header; blocks = m.blocks; entries = m.kept }

    made_used : ¬ IsFree s1.mc.ptn_index s1.mc.gpt
    made_used free =
        let usable = c.usable in let from = c.ready.clear.from in let first = m.first in omega arith

    next_Done : (s2 : Session hm) → Done ps end_lba s1 s2 → Done ((entry, mb) ∷ ps) end_lba s s2
    next_Done s2 d =
        let here = d.kept.entries s1.mc.ptn_index m.index made_used in
        record {
          ready = d.ready;
          next = let n1 = m.next in let n2 = d.next in omega arith;
          laid = (
            (
              s1.mc.ptn_index,
              Kept-InTable s1.mc.ptn_index d.kept m.index,
              ap (λ x. x.first_lba) here ∙ m.first ∙ sym (same s.mc.next_mb),
              ap (λ x. x.last_lba + 1) here ∙ m.last ∙ sym (same (s.mc.next_mb + mb)),
            ),
            subst (λ n. Laid s2.mc.gpt n ps) m.next d.laid,
          );
          kept = Kept-trans made_Kept d.kept;
        }
      where
        same : (n : ℕ) → mib_to_lba s2.mc.gpt n ≡ mib_to_lba s.mc.gpt n
        same n = mib_to_lba-same s.mc.gpt s2.mc.gpt n (d.kept.blocks ∙ m.blocks)

  -- For a partition list whose options are in place and whose sizes fit into a clear range of
  -- blocks, with a free slot and 16 random bytes for every entry of the list, the loop over
  -- `mkpart_cb` comes to its end. It then has made one partition after the other from `next_mb`
  -- on, each of its size in MiB; all partitions are disjoint and inside the usable area, and those
  -- that the table had before are as they were.
  pub mkpart_cb_lem :
      (plan : Plan) (start_lba end_lba : ℕ) (s : Session hm)
      → Can plan start_lba end_lba s
      → (s' : Session hm) × (iterate (mkpart_cb hm) (map (λ p. p.0) plan) s ≡ some s')
        × Done plan end_lba s s'
  unfolding iterate
  mkpart_cb_lem [] start_lba end_lba s c = (
    s,
    refl,
    record {
      ready = c.ready;
      next = omega arith;
      laid = tt;
      kept = record { header = refl; blocks = refl; entries = λ j h used. refl };
    },
  )
  mkpart_cb_lem ((entry, mb) ∷ ps) start_lba end_lba s c =
      let w = c.wants.0 in
      let (r, read, long, bytes, more) = next_supply (length ps) s.entropy c.random in
      let (s1, made, m) =
        make_partition_lem hm entry w.type w.flags mb start_lba end_lba s r c.ready c.range c.lo
          w.some_mb (let hi = c.hi in omega arith)
          (free_slots-next s.mc.gpt (let slots = c.slots in omega arith)) (wide hm w) w.short
          w.chars read long bytes in
      let (s2, rest, d) =
        mkpart_cb_lem ps start_lba end_lba s1
          (next_Can entry mb ps w.type w.flags start_lba end_lba r s s1 c m more) in
      (
        s2,
        rw (mkpart_cb-eq hm s entry mb w, made, iterate) rest,
        next_Done entry mb ps w.type w.flags start_lba end_lba r s s1 c m s2 d,
      )
