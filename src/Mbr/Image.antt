-- ===== src/Mbr/Image.antt =====
-- Copying an image into place: editdisklbl/diskutils.c `write_raw_image`. What the kernel does to
-- each read of the source and each write to the destination is a schedule of outcomes, as in
-- Device; behind its end every call transfers all that it is asked for. So a kernel that interrupts
-- every call, or writes 0 bytes for ever, which keeps the loops of the code going for ever, is left
-- out.
pub mod Laws
use platform_bootable_iago.Base.{
  ℕ, zero, suc, ◌+◌, ◌-◌, ◌^◌, Bool, true, false, not, ◌&&◌, List, [], ◌∷◌, Option, none, some, min,
  ltb, ◌==◌, if◌then◌else◌, length, take, drop, patch,
}
use platform_bootable_iago.Device.{Outcome, upto, eintr, error}

-- The loop that writes `nr` bytes of the buffer, which does not move on: whether it succeeds, the
-- file, the position and the schedule behind it. The file grows at its end.
unfoldable pub write_chunk :
    List Outcome → List ℕ → ℕ → List ℕ → ℕ → Bool × List ℕ × ℕ × List Outcome
write_chunk [] file pos buf nr = (true, patch pos (take nr buf) file, pos + nr, [])
write_chunk (upto k ∷ s) file pos buf nr =
    let n = min k nr in
    let rest = write_chunk s (patch pos (take n buf) file) (pos + n) buf (nr - n) in
    if nr == 0 then (true, file, pos, upto k ∷ s) else rest
write_chunk (eintr ∷ s) file pos buf nr =
    let rest = write_chunk s file pos buf nr in
    if nr == 0 then (true, file, pos, eintr ∷ s) else rest
write_chunk (error ∷ s) file pos buf nr =
    if nr == 0 then (true, file, pos, error ∷ s) else (false, file, pos, s)

-- `sizeof(buffer)`
abbrev pub buffer_size : ℕ
buffer_size = 2048

-- In test mode nothing is written.
abbrev pub store_chunk :
    Bool → List Outcome → List ℕ → ℕ → List ℕ → Bool × List ℕ × ℕ × List Outcome
store_chunk true ws file pos buf = (true, file, pos, ws)
store_chunk false ws file pos buf = write_chunk ws file pos buf (length buf)

-- The loop over the source, on fuel: the result and the destination file. `rs` is the schedule of
-- the reads and `ws` that of the writes.
unfoldable pub copy_image :
    ℕ → Bool → List Outcome → List Outcome → List ℕ → List ℕ → ℕ → Option (Bool × List ℕ)
copy_image zero test rs ws src file pos = none
copy_image (suc fuel) test [] ws src file pos =
    let n = min buffer_size (length src) in
    let (stored, file', pos', ws') = store_chunk test ws file pos (take n src) in
    let rest = copy_image fuel test [] ws' (drop n src) file' pos' in
    if n == 0 then some (true, file) else if stored then rest else some (false, file')
copy_image (suc fuel) test (upto k ∷ rs) ws src file pos =
    let n = min k (min buffer_size (length src)) in
    let (stored, file', pos', ws') = store_chunk test ws file pos (take n src) in
    let rest = copy_image fuel test rs ws' (drop n src) file' pos' in
    if n == 0 then some (true, file) else if stored then rest else some (false, file')
copy_image (suc fuel) test (eintr ∷ rs) ws src file pos = copy_image fuel test rs ws src file pos
copy_image (suc fuel) test (error ∷ rs) ws src file pos = some (false, file)

-- Enough fuel: each round uses up an outcome or a byte of the source.
abbrev pub enough : List Outcome → List ℕ → ℕ
enough rs src = length rs + length src + 1

abbrev pub with_file : Option (Bool × List ℕ) → Option (Bool × Option (List ℕ))
with_file none = none
with_file (some (ok, file)) = some (ok, some file)

abbrev pub without_file : Option (Bool × List ℕ) → Option (Bool × Option (List ℕ))
without_file none = none
without_file (some (ok, file)) = some (ok, none)

-- A file that does not open is `none`. The result, where `true` is 0, and the destination; without
-- a result the fuel has run out. In test mode the destination is not opened, and may be missing.
unfoldable pub write_raw_image :
    List Outcome
    → List Outcome
    → Option (List ℕ)
    → Option (List ℕ)
    → ℕ
    → Bool
    → Option (Bool × Option (List ℕ))
write_raw_image rs ws none dst offset test = some (false, dst)
write_raw_image rs ws (some src) none offset true =
    without_file (copy_image (enough rs src) true rs ws src [] offset)
write_raw_image rs ws (some src) none offset false = some (false, none)
write_raw_image rs ws (some src) (some file) offset true =
    with_file (copy_image (enough rs src) true rs ws src file offset)
write_raw_image rs ws (some src) (some file) offset false =
    if ltb offset (2 ^ 63)
    then with_file (copy_image (enough rs src) false rs ws src file offset)
    else some (false, some file)
