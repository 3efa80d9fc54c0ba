-- ===== src/Partitioner/Sizes/Laws.antt =====
-- Rounding in installer/partitioner.c.
use platform_bootable_iago.Base.{
  ℕ, ◌+◌, ◌-◌, ◌*◌, ◌/◌, ◌%◌, ◌^◌, ◌≤◌, ◌<◌, ◌≡◌, ◌≢◌, ◌∙◌, arith, ◌==◌, ==_iff, Bool-cases, inl,
  inr, false, u64,
}
use native.Mathlib.Nat.{
  div-add-mod', mod-lt, add-mod_right, mul-mod_left, le-div_iff_mul-le, div-le_of_le-mul,
  div-mul-le_self, mul_comm,
}
use platform_bootable_iago.Gpt.Table.{Gpt}
use platform_bootable_iago.Partitioner.Sizes.{
  round_up_to_multiple, to_unit_ceiling, to_mib, to_mib_floor, mib_to_lba,
}

-- The least multiple of `m` that is not below `v`.
pub record IsRoundedUp (v m r : ℕ) : Type 0 where
  pub multiple : r % m ≡ 0
  pub above : v ≤ r
  pub close : r < v + m

-- For a multiple other than 0 and where the sum does not wrap, `round_up_to_multiple` gives the
-- least multiple that is not below the value.
pub round_up_to_multiple_lem :
    (v m : ℕ) → m ≢ 0 → v + m < 2 ^ 64 → IsRoundedUp v m (round_up_to_multiple v m)
unfolding round_up_to_multiple
round_up_to_multiple_lem v m nonzero small =
    let split = div-add-mod' v m in
    let rest = mod-lt v {m = m} (omega arith) in
    elim (Bool-cases (v % m == 0)) [
      | inl whole ↦
          let none_left = (==_iff (v % m) 0).0 whole in
          rw (not_zero, whole)
            record { multiple = none_left; above = omega arith; close = omega arith }
      | inr part ↦
          let some_left : v % m ≢ 0 = ground arith in
          let next : u64 (u64 (v + m) + 2 ^ 64 - v % m) ≡ v / m * m + m = omega arith in
          rw (not_zero, part, next)
            record {
              multiple = add-mod_right (v / m * m) m ∙ mul-mod_left (v / m) m;
              above = omega arith;
              close = omega arith;
            }
    ]
  where
    not_zero : (m == 0) ≡ false
    not_zero = ground arith

-- `to_mib` rounds up and `to_mib_floor` down.
pub to_mib_bounds :
    (v : ℕ) → v + 2 ^ 20 < 2 ^ 64 → (v ≤ to_mib v * 2 ^ 20) × (to_mib v * 2 ^ 20 < v + 2 ^ 20)
unfolding to_mib to_unit_ceiling round_up_to_multiple
to_mib_bounds v small = ground arith

module _ (g : Gpt) (start_lba end_lba : ℕ) (block : g.lba_size ≢ 0) (order : start_lba ≤ end_lba)
    (small : (end_lba + 1) * g.lba_size + 2 ^ 20 < 2 ^ 64) where
  start_bytes : start_lba * g.lba_size ≤ (end_lba + 1) * g.lba_size
  start_bytes = grind arith

  -- The MiB between `to_mib` of the start of a range of blocks and `to_mib_floor` of its end lie
  -- inside the range, for a disk of fewer than 2^64 bytes with a block size.
  pub mib_to_lba-within :
      (mib : ℕ)
      → to_mib (u64 (start_lba * g.lba_size)) ≤ mib
      → mib ≤ to_mib_floor (u64 ((end_lba + 1) * g.lba_size))
      → (start_lba ≤ mib_to_lba g mib) × (mib_to_lba g mib ≤ end_lba + 1)
  unfolding mib_to_lba to_mib_floor
  mib_to_lba-within mib lo hi = (
    rw no_wrap ((le-div_iff_mul-le (omega arith)).1 (omega (arith, start, start_bytes))),
    rw no_wrap (div-le_of_le-mul g.lba_size (omega (arith, start_bytes, swap))),
  )
    where
      start : start_lba * g.lba_size ≤ to_mib (u64 (start_lba * g.lba_size)) * 2 ^ 20
      start =
          let whole : u64 (start_lba * g.lba_size) ≡ start_lba * g.lba_size =
            omega (arith, start_bytes) in
          let (above, _) =
            to_mib_bounds (u64 (start_lba * g.lba_size)) (omega (arith, start_bytes)) in
          omega arith

      no_wrap : u64 (mib * 2 ^ 20) ≡ mib * 2 ^ 20
      no_wrap = omega arith

      swap : g.lba_size * (end_lba + 1) ≡ (end_lba + 1) * g.lba_size
      swap = mul_comm g.lba_size (end_lba + 1)

  -- A later MiB begins at a later block, where a block is not larger than 1 MiB.
  pub mib_to_lba_mono :
      (a b : ℕ)
      → a < b
      → b ≤ to_mib_floor (u64 ((end_lba + 1) * g.lba_size))
      → g.lba_size ≤ 2 ^ 20
      → mib_to_lba g a < mib_to_lba g b
  unfolding mib_to_lba to_mib_floor
  mib_to_lba_mono a b lt hi fits =
      let wa : u64 (a * 2 ^ 20) ≡ a * 2 ^ 20 = omega arith in
      let wb : u64 (b * 2 ^ 20) ≡ b * 2 ^ 20 = omega arith in
      rw (wa, wb)
        (let down = div-mul-le_self (a * 2 ^ 20) g.lba_size in
          let next : a * 2 ^ 20 / g.lba_size + 1 ≤ b * 2 ^ 20 / g.lba_size =
            (le-div_iff_mul-le {k = g.lba_size} {x = a * 2 ^ 20 / g.lba_size + 1} {y = b * 2 ^ 20}
                (omega arith)).1
              (above down) in
          omega arith)
    where
      above :
          a * 2 ^ 20 / g.lba_size * g.lba_size ≤ a * 2 ^ 20
          → (a * 2 ^ 20 / g.lba_size + 1) * g.lba_size ≤ b * 2 ^ 20
      above down = omega arith
