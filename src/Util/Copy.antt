-- ===== src/Util/Copy.antt =====
-- Writing and copying files: installer/util.c `xwrite`, `put_string` and `__dd`. What the kernel
-- does to each call is a schedule of outcomes, as in Device; where a device is full, the schedule
-- of the writes has an error. The end of the installer by `die` is `none`.
pub mod Laws
mod Tests
use platform_bootable_iago.Base.{
  ℕ, zero, suc, ◌+◌, ◌^◌, Bool, true, false, List, [], ◌∷◌, Option, none, some, min, ◌==◌,
  if◌then◌else◌, length, take, drop, patch,
}
use platform_bootable_iago.Device.{Outcome, upto, eintr, error, Result, ok, err, hang, robust_read}

-- The file, the position in it and the schedule of the writes that are left.
abbrev pub Written : Type 0
Written = List ℕ × ℕ × List Outcome

unfoldable pub xwrite : List Outcome → List ℕ → ℕ → List ℕ → Option Written
xwrite [] file pos buf = some (patch pos buf file, pos + length buf, [])
xwrite (upto k ∷ s) file pos buf =
    let n = min k (length buf) in
    let rest = xwrite s (patch pos (take n buf) file) (pos + n) (drop n buf) in
    if length buf == 0 then some (file, pos, upto k ∷ s) else rest
xwrite (eintr ∷ s) file pos buf =
    let rest = xwrite s file pos buf in
    if length buf == 0 then some (file, pos, eintr ∷ s) else rest
xwrite (error ∷ s) file pos buf = if length buf == 0 then some (file, pos, error ∷ s) else none

-- The loop of `put_string` is that of `xwrite`, on the formatted string.
unfoldable pub put_string : List Outcome → List ℕ → ℕ → List ℕ → Option Written
put_string = xwrite

-- `CHUNK`
abbrev pub chunk : ℕ
chunk = 2 ^ 20

-- How a copy ends: `none` is that the fuel has run out, `some none` is `die`.
abbrev pub Copied : Type 0
Copied = Option (Option (List ℕ))

-- What follows the write of a chunk.
abbrev pub after_write : (List Outcome → List ℕ → ℕ → Copied) → Option Written → Copied
after_write next none = some none
after_write next (some (file, pos, ws)) = next ws file pos

-- What follows the read of a chunk.
abbrev pub after_read :
    (List Outcome → List Outcome → List ℕ → List ℕ → ℕ → Copied)
    → List Outcome
    → List ℕ
    → List ℕ
    → ℕ
    → Result (List ℕ) × List Outcome
    → Copied
after_read next ws src file pos (ok buf, rs) =
    if length buf == 0
    then some (some file)
    else after_write (λ ws' file' pos'. next rs ws' (drop (length buf) src) file' pos')
        (xwrite ws file pos buf)
after_read next ws src file pos (err e, rs) = some none
after_read next ws src file pos (hang, rs) = none

-- The loop of `__dd`, on fuel.
unfoldable pub dd_loop : ℕ → List Outcome → List Outcome → List ℕ → List ℕ → ℕ → Copied
dd_loop zero rs ws src file pos = none
dd_loop (suc fuel) rs ws src file pos =
    after_read (dd_loop fuel) ws src file pos (robust_read rs src chunk true [])

-- What the destination is before it is opened.
pub data Dest : Type 0 where
  missing : Dest
  file device : List ℕ → Dest

-- `xopen` with O_CREAT, and with O_APPEND or O_TRUNC: the bytes and the position of the first write.
unfoldable pub open_dest : Bool → Bool → Dest → Option (List ℕ × ℕ)
open_dest true append missing = some ([], 0)
open_dest false append missing = none
open_dest copy_ok true (file f) = some (f, length f)
open_dest copy_ok false (file f) = some ([], 0)
open_dest copy_ok append (device f) = some (f, 0)

-- `__dd`, for a source that opens where it is not `none`.
unfoldable pub dd_with : Bool → Bool → List Outcome → List Outcome → Option (List ℕ) → Dest → Copied
dd_with copy_ok append rs ws none dest = some none
dd_with copy_ok append rs ws (some src) dest = elim (open_dest copy_ok append dest) [
  | none ↦ some none
  | some (f, pos) ↦ dd_loop (suc (length rs + length src)) rs ws src f pos
]

-- To a device or a file that is there.
abbrev pub dd : List Outcome → List Outcome → Option (List ℕ) → Dest → Copied
dd = dd_with false false

abbrev pub copy_file : List Outcome → List Outcome → Option (List ℕ) → Dest → Copied
copy_file = dd_with true false

abbrev pub append_file : List Outcome → List Outcome → Option (List ℕ) → Dest → Copied
append_file = dd_with true true
