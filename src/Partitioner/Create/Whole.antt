-- ===== src/Partitioner/Create/Whole.antt =====
-- installer/partitioner.c `create_android_partitions` on a table with free space.
use platform_bootable_iago.Base.{
  ℕ, ◌+◌, ◌-◌, ◌*◌, ◌^◌, ◌≤◌, ◌<◌, ◌≡◌, ◌≢◌, refl, ap, ◌∙◌, inl, inr, arith, List, map, All, Option,
  none, some, Bool, false, length, u64, ltb, le→ltb,
}
use mathlib.Core.Path.{subst}
use platform_bootable_iago.Gpt.Table.{Gpt, IsTable}
use platform_bootable_iago.Gpt.Table.Slots.{free_slots}
use platform_bootable_iago.Gpt.FreeSpace.{gpt_find_contiguous_free_space}
use platform_bootable_iago.Gpt.FreeSpace.Largest.{
  IsLaidOut, IsUnused, IsLargest, gpt_find_contiguous_free_space_lem,
}
use platform_bootable_iago.Options.{Hashmap, get_or_die, string_list_iterate, entries_of, iterate}
use platform_bootable_iago.Partitioner.Sizes.{
  to_mib, to_mib_floor, mib_to_lba, to_unit_ceiling, round_up_to_multiple,
}
use platform_bootable_iago.Partitioner.Sizes.Laws.{mib_to_lba-within}
use platform_bootable_iago.Partitioner.Android.{bootloader}
use platform_bootable_iago.Partitioner.Create.{
  Session, get_partial_space_required, mkpart_cb, create_android_partitions, partition_key,
  len_field, bootloader2, min_data_part_size,
}
use platform_bootable_iago.Partitioner.Create.Step.{Clear, IsRange}
use platform_bootable_iago.Partitioner.Create.Skip.{unskipped, iterate-unskipped}
use platform_bootable_iago.Partitioner.Create.Wants.{Wants}
use platform_bootable_iago.Partitioner.Create.Layout.{
  Plan, total, Supplies, Can, Done, mkpart_cb_lem,
}

module _ (hm : Hashmap) (opts : hm.Map) (entropy : List (Option (List ℕ))) (g : Gpt) (skip : Bool)
    (partlist len : List ℕ) (bootloader_size required start_lba end_lba : ℕ) (plan : Plan) where
  -- The first MiB inside the free range, and the one behind the last.
  abbrev pub start_mb : ℕ
  start_mb = to_mib (u64 (start_lba * g.lba_size))

  abbrev pub end_mb : ℕ
  end_mb = to_mib_floor (u64 (u64 (end_lba + 1) * g.lba_size))

  -- The session that the loop over the partition list begins with.
  abbrev pub begun : Session hm
  begun = record {
    opts = hm.put (partition_key bootloader2 len_field) len opts;
    entropy = entropy;
    mc = record {
      gpt = g;
      ptn_index = 0;
      next_mb = start_mb;
      ptn_mb = to_mib required;
      disk_mb = u64 (end_mb + 2 ^ 64 - start_mb);
      skip_bootloader = skip;
    };
  }

  -- The options that are read before the loop, and the table, of a disk of fewer than 2^64 bytes.
  pub record Prepared : Type 0 where
    pub table : IsTable g
    pub laid_out : IsLaidOut g
    pub usable : 1 ≤ g.header.first_usable_lba
    pub block : g.lba_size ≢ 0
    pub fits : g.lba_size ≤ 2 ^ 20
    pub small : (g.header.last_usable_lba + 1) * g.lba_size + 2 ^ 20 < 2 ^ 64
    pub need : get_partial_space_required hm opts bootloader_size ≡ some required
    pub found : gpt_find_contiguous_free_space g ≡ some (start_lba, end_lba)
    pub bootloader_len : get_or_die hm none (partition_key bootloader len_field) opts ≡ some len
    pub whole : start_mb ≤ end_mb
    pub enough : u64 (to_mib required + min_data_part_size) ≤ end_mb - start_mb

  -- The partitions that the list asks for are the plan, and their sizes fit into the free range.
  pub record Planned : Type 0 where
    pub entries : unskipped skip (entries_of partlist) ≡ map (λ p. p.0) plan
    pub wants : All (λ (entry, mb). Wants hm begun entry mb) plan
    pub fits_in : total plan ≤ end_mb - start_mb
    pub slots : length plan ≤ free_slots g
    pub random : Supplies (length plan) entropy

  module _ (p : Prepared) (q : Planned) where
    unused : IsUnused g start_lba end_lba
    unused = (subst (IsLargest g) p.found (gpt_find_contiguous_free_space_lem g p.laid_out)).0

    end_bytes : (end_lba + 1) * g.lba_size ≤ (g.header.last_usable_lba + 1) * g.lba_size
    end_bytes = let upto = unused.upto in grind arith

    no_wrap : u64 (end_lba + 1) ≡ end_lba + 1
    no_wrap = let upto = unused.upto in let small = p.laid_out.small in omega arith

    range : IsRange g start_lba end_lba
    range = record {
      block = p.block;
      fits = p.fits;
      order = unused.order;
      small = let small = p.small in omega (arith, end_bytes);
    }

    end_eq : end_mb ≡ to_mib_floor (u64 ((end_lba + 1) * g.lba_size))
    end_eq = ap (λ n. to_mib_floor (u64 (n * g.lba_size))) no_wrap

    end_small : end_mb < 2 ^ 64
    unfolding to_mib_floor
    end_small = omega arith

    available : u64 (end_mb + 2 ^ 64 - start_mb) ≡ end_mb - start_mb
    available = let whole = p.whole in omega (arith, end_small)

    begun-Clear : Clear g (mib_to_lba g start_mb) end_lba
    begun-Clear =
        let (lo, _) =
          mib_to_lba-within g start_lba end_lba range.block range.order range.small start_mb
            (omega arith) (let whole = p.whole in omega (arith, end_eq)) in
        record {
          from = let from = unused.from in omega arith;
          upto = unused.upto;
          avoids = λ i h used. elim (unused.avoids i h used) [
            | inl before ↦ inl (omega arith)
            | inr after ↦ inr after
          ];
        }

    begun-Can : Can hm plan start_lba end_lba begun
    begun-Can = record {
      ready = record { table = p.table; laid_out = p.laid_out; clear = begun-Clear };
      range = range;
      usable = p.usable;
      lo = omega arith;
      hi = let fits = q.fits_in in let whole = p.whole in omega (arith, end_eq);
      wants = q.wants;
      slots = q.slots;
      random = q.random;
    }

    -- On a disk of fewer than 2^64 bytes whose partitions are disjoint, where the largest free
    -- range holds the partitions of the list (all but the bootloader's where `skip` says that this
    -- one is to be left out) with their sizes and the minimum for the data partition, and the
    -- options, free slots and random bytes for them are there,
    -- `create_android_partitions` comes to its end: these partitions lie one after the
    -- other from the first whole MiB of that range on, all partitions are disjoint and inside the
    -- usable area, and those that the disk had before are as they were.
    pub create_android_partitions_lem :
        (s' : Session hm) × (create_android_partitions hm bootloader_size partlist g skip opts
            entropy
          ≡ some s')
        × Done hm plan end_lba begun s'
    unfolding create_android_partitions string_list_iterate
    create_android_partitions_lem =
        let (s', e, d) = mkpart_cb_lem hm plan start_lba end_lba begun begun-Can in
        (s', rw (p.need, p.found, not_less, p.bootloader_len) (same ∙ e), d)
      where
        same :
            iterate (mkpart_cb hm) (entries_of partlist) begun
            ≡ iterate (mkpart_cb hm) (map (λ p. p.0) plan) begun
        same =
            iterate-unskipped hm (entries_of partlist) begun
            ∙ ap (λ es. iterate (mkpart_cb hm) es begun) q.entries

        not_less :
            ltb (u64 (end_mb + 2 ^ 64 - start_mb)) (u64 (to_mib required + min_data_part_size))
            ≡ false
        not_less =
            le→ltb (u64 (end_mb + 2 ^ 64 - start_mb)) (u64 (to_mib required + min_data_part_size))
              (let enough = p.enough in omega (arith, available))

  start_small : start_mb ≤ 2 ^ 44
  unfolding to_mib to_unit_ceiling round_up_to_multiple
  start_small = ground arith

  need_small : required < 2 ^ 64 → to_mib required ≤ 2 ^ 44
  unfolding to_mib to_unit_ceiling round_up_to_multiple
  need_small wide = ground arith

  -- Where the largest free range has no whole MiB, from the first MiB at its start to the last at its
  -- end, the available space is a negative number that wraps: the test for enough space
  -- passes, and `create_android_partitions` goes on to the loop over the partition list.
  pub create_android_partitions_wraps :
      required < 2 ^ 64
      → get_partial_space_required hm opts bootloader_size ≡ some required
      → gpt_find_contiguous_free_space g ≡ some (start_lba, end_lba)
      → get_or_die hm none (partition_key bootloader len_field) opts ≡ some len
      → end_mb < start_mb
      → create_android_partitions hm bootloader_size partlist g skip opts entropy
        ≡ string_list_iterate partlist (mkpart_cb hm) begun
  unfolding create_android_partitions
  create_android_partitions_wraps wide need found bootloader_len less =
      rw (need, found, not_less, bootloader_len) refl
    where
      not_less :
          ltb (u64 (end_mb + 2 ^ 64 - start_mb)) (u64 (to_mib required + min_data_part_size))
          ≡ false
      not_less =
          le→ltb (u64 (end_mb + 2 ^ 64 - start_mb)) (u64 (to_mib required + min_data_part_size))
            (omega (arith, start_small, need_small wide))
