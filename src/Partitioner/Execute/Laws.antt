-- ===== src/Partitioner/Execute/Laws.antt =====
-- What the execution phase of installer/partitioner.c leaves on a disk that it wipes.
use platform_bootable_iago.Base.{
  ℕ, ◌+◌, ◌-◌, ◌*◌, ◌^◌, ◌≤◌, ◌<◌, ◌≡◌, ◌≢◌, ap, ◌∙◌, sym, arith, List, ◌∷◌, All, IsByte, Option,
  none, some, true, false, length, u64,
}
use mathlib.Core.Path.{subst}
use mathlib.Core.Option.{some-injective}
use platform_bootable_iago.Gpt.Table.{Gpt}
use platform_bootable_iago.Gpt.Edit.{gpt_new}
use platform_bootable_iago.Gpt.Edit.Laws.{IsNew, array_blocks, gpt_new_lem}
use platform_bootable_iago.Gpt.Init.{gpt_init}
use platform_bootable_iago.Gpt.FreeSpace.Blank.{new-IsLaidOut, gpt_find-new}
use platform_bootable_iago.Options.{Hashmap, get_or_die, xatoll}
use platform_bootable_iago.Partitioner.Sizes.{to_mib}
use platform_bootable_iago.Partitioner.Android.{bootloader}
use platform_bootable_iago.Partitioner.Create.{
  Session, partition_key, len_field, min_data_part_size, get_partial_space_required,
}
use platform_bootable_iago.Partitioner.Create.Layout.{Plan, Done}
use platform_bootable_iago.Partitioner.Create.Whole.{
  start_mb, end_mb, begun, Prepared, Planned, create_android_partitions_lem,
}
use platform_bootable_iago.Partitioner.Execute.{System, bootloader_sizes, execute_wipe_disk}

-- A disk of fewer than 2^64 bytes and at most 2^63 blocks of at most 1 MiB, with room for two
-- tables.
pub record IsDisk (g : Gpt) : Type 0 where
  pub block : g.lba_size ≢ 0
  pub fits : g.lba_size ≤ 2 ^ 20
  pub big : 4 + 2 * array_blocks g ≤ g.sectors
  pub few : g.sectors ≤ 2 ^ 63
  pub small : g.sectors * g.lba_size + 2 ^ 20 < 2 ^ 64

module _ (hm : Hashmap) (opts : hm.Map) (entropy : List (Option (List ℕ))) (g g' : Gpt)
    (partlist len random : List ℕ) (mib size required : ℕ) (plan : Plan) where
  abbrev first : ℕ
  first = g'.header.first_usable_lba

  abbrev last : ℕ
  last = g'.header.last_usable_lba

  -- The session with the new table.
  abbrev pub wiped : Session hm
  wiped = begun hm opts entropy g' false partlist len size required first last plan

  -- The new table for a disk, and the options of an installation on it.
  pub record Wiped : Type 0 where
    pub disk : IsDisk g
    pub long : length random ≡ 16
    pub bytes : All IsByte random
    pub made : gpt_new (some random) g ≡ some (true, g')
    pub number_ok : xatoll len ≡ some mib
    pub twice : size ≡ 2 * mib * 2 ^ 20
    pub no_wrap : size < 2 ^ 64
    pub need : get_partial_space_required hm opts size ≡ some required
    pub bootloader_len : get_or_die hm none (partition_key bootloader len_field) opts ≡ some len
    pub whole :
        start_mb hm opts entropy g' false partlist len size required first last plan
        ≤ end_mb hm opts entropy g' false partlist len size required first last plan
    pub enough :
        u64 (to_mib required + min_data_part_size)
        ≤ end_mb hm opts entropy g' false partlist len size required first last plan
          - start_mb hm opts entropy g' false partlist len size required first last plan

  module _ (w : Wiped) where
    pub new : IsNew g g'
    new =
        let d = w.disk in
        let (g'', e, n) =
          gpt_new_lem g random d.block d.big (let few = d.few in omega arith) w.long w.bytes in
        subst (IsNew g) (ap (λ x. x.1) (some-injective (true, g'') (true, g') (sym e ∙ w.made))) n

    inside : (last + 1) * g.lba_size ≤ g.sectors * g.lba_size
    inside = let l = new.last in let h : last + 1 ≤ g.sectors = omega arith in grind arith

    -- Space for the bootloader partition and its copy.
    both_sizes : bootloader_sizes hm opts ≡ some size
    unfolding bootloader_sizes
    both_sizes =
        let t = w.twice in
        let b = w.no_wrap in rw (w.bootloader_len, w.number_ok) (ap some (omega arith))

    prepared : Prepared hm opts entropy g' false partlist len size required first last plan
    prepared = record {
      table = new.table;
      laid_out = new-IsLaidOut g g' new w.disk.big w.disk.few;
      usable = let f = new.first in omega arith;
      block = rw new.place.0 w.disk.block;
      fits = rw new.place.0 w.disk.fits;
      small = rw new.place.0 (let small = w.disk.small in omega (arith, inside));
      need = w.need;
      found = gpt_find-new g g' new w.disk.big w.disk.few;
      bootloader_len = w.bootloader_len;
      whole = w.whole;
      enough = w.enough;
    }

    -- Where the sizes of the disk are known, a new table can be made for it, its usable area holds the
    -- partitions of the list with their sizes, twice the size of the bootloader partition and the
    -- minimum for the data partition, and the options, free slots and random bytes for them are there, `execute_wipe_disk` comes to its end: the
    -- partitions of the list are those of the new table, one after the other from the first whole MiB
    -- of the usable area on, disjoint and inside it.
    pub execute_wipe_disk_lem :
        (sys : System) (device : List ℕ)
        → gpt_init sys.memory device sys.sysfs ≡ some g
        → Planned hm opts entropy g' false partlist len size required first last plan
        → (s' : Session hm) × (execute_wipe_disk hm sys partlist device opts (some random ∷ entropy)
            ≡ some s')
          × Done hm plan last wiped s'
    unfolding execute_wipe_disk
    execute_wipe_disk_lem sys device init planned =
        let (s', e, d) =
          create_android_partitions_lem hm opts entropy g' false partlist len size required first
            last plan prepared planned in
        (s', rw (init, w.made, both_sizes) e, d)
