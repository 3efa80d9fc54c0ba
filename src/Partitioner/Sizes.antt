-- ===== src/Partitioner/Sizes.antt =====
-- The size arithmetic of installer/partitioner.c, on 64-bit numbers.
pub mod Laws
use platform_bootable_iago.Base.{ℕ, ◌+◌, ◌-◌, ◌*◌, ◌/◌, ◌%◌, ◌^◌, ◌==◌, if◌then◌else◌, u64}
use platform_bootable_iago.Gpt.Table.{Gpt}

unfoldable pub round_up_to_multiple : ℕ → ℕ → ℕ
round_up_to_multiple val multiple =
    let rem = val % multiple in
    if multiple == 0
    then val
    else if rem == 0
    then val
    else u64 (u64 (val + multiple) + 2 ^ 64 - rem)

unfoldable pub mib_align : ℕ → ℕ
unfolding round_up_to_multiple
mib_align val = round_up_to_multiple val (2 ^ 20)

unfoldable pub to_unit_ceiling : ℕ → ℕ → ℕ
unfolding round_up_to_multiple
to_unit_ceiling val unit = round_up_to_multiple val unit / unit

unfoldable pub to_mib : ℕ → ℕ
unfolding to_unit_ceiling
to_mib val = to_unit_ceiling val (2 ^ 20)

unfoldable pub to_mib_floor : ℕ → ℕ
to_mib_floor val = val / 2 ^ 20

-- The callers' tables have a block size other than 0.
unfoldable pub mib_to_lba : Gpt → ℕ → ℕ
mib_to_lba g mib = u64 (mib * 2 ^ 20) / g.lba_size
