-- ===== src/Gpt/Table.antt =====
-- `struct gpt` of include/gpt/gpt.h and how libgpt/gpt.c reaches its entries.
pub mod Laws
pub mod Scan
pub mod Slots
use platform_bootable_iago.Base.{
  ℕ, zero, suc, ◌+◌, ◌-◌, ◌*◌, ◌%◌, ◌^◌, ◌≤◌, ◌<◌, ◌≡◌, Bool, ◌||◌, List, [], ◌∷◌, Option, none,
  some, ltb, ◌==◌, if◌then◌else◌, length, slice, splice, All, IsByte, u32,
}
use platform_bootable_iago.Gpt.Entry.{Entry, encode_entry, decode_entry}
use platform_bootable_iago.Gpt.Header.{Header}

-- `entries` is the array behind the C pointer, its entries in disk order (no bytes for NULL).
pub record Gpt : Type 0 where
  pub header : Header
  pub entries : List ℕ
  pub lba_size : ℕ
  pub sectors : ℕ
  pub device : List ℕ

-- `sizeof(struct gpt_entry)`
abbrev pub entry_bytes : ℕ
entry_bytes = 128

-- Where `gpt_entry_offset` points in the array: 32-bit arithmetic on a 1-based index.
unfoldable pub gpt_entry_offset : ℕ → Gpt → ℕ
gpt_entry_offset i g = u32 (g.header.pentry_size * u32 (i + 2 ^ 32 - 1))

-- The entry under the pointer `gpt_entry_offset(i, gpt)`, in host order.
unfoldable pub entry_at : ℕ → Gpt → Entry
entry_at i g = decode_entry (slice (gpt_entry_offset i g) entry_bytes g.entries)

-- The table after its entry `i` was assigned through that pointer.
unfoldable pub set_entry : ℕ → Entry → Gpt → Gpt
set_entry i e g = record g { entries = splice (gpt_entry_offset i g) (encode_entry e) g.entries }

-- `none` is the NULL for an index outside the table.
unfoldable pub gpt_entry_get : ℕ → Gpt → Option Entry
gpt_entry_get i g = if i == 0 || ltb g.header.num_pentries i then none else some (entry_at i g)

-- The loop of `gpt_next_index`: `n` rounds from index `i` on.
unfoldable pub next_from : ℕ → ℕ → Gpt → ℕ
next_from zero i g = 0
next_from (suc n) i g =
    let rest = next_from n (i + 1) g in if (entry_at i g).first_lba == 0 then i else rest

unfoldable pub gpt_next_index : Gpt → ℕ
unfolding next_from
gpt_next_index g = next_from g.header.num_pentries 1 g

-- What the macro `partition_for_each` visits: the entries in use, with their indices.
unfoldable pub used_from : ℕ → ℕ → Gpt → List (ℕ × Entry)
used_from zero i g = []
used_from (suc n) i g =
    let rest = used_from n (i + 1) g in
    let e = entry_at i g in if e.first_lba == 0 then rest else (i, e) ∷ rest

unfoldable pub partitions : Gpt → List (ℕ × Entry)
unfolding used_from
partitions g = used_from g.header.num_pentries 1 g

-- A table whose entries lie side by side in an array of their size.
pub record IsTable (g : Gpt) : Type 0 where
  pub stride : entry_bytes ≤ g.header.pentry_size
  pub small : g.header.num_pentries * g.header.pentry_size < 2 ^ 32
  pub room : length g.entries ≡ g.header.num_pentries * g.header.pentry_size
  pub bytes : All IsByte g.entries

-- The indices of the table's entries.
abbrev pub InTable : ℕ → Gpt → Type 0
InTable i g = (1 ≤ i) × (i ≤ g.header.num_pentries)
