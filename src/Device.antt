-- ===== src/Device.antt =====
-- Block devices as the partition table library uses them: libgpt/gpt.c `robust_read` and
-- `robust_write`. A device is its bytes. What the kernel does to each read or write call is a
-- schedule of outcomes; once the schedule is used up every call transfers all that fits.
pub mod Laws
mod Tests
use platform_bootable_iago.Base.{
  ℕ, ◌+◌, ◌-◌, ◌^◌, Bool, true, false, not, ◌&&◌, ◌||◌, List, [], ◌∷◌, ◌++◌, min, ltb, leb, ◌==◌,
  if◌then◌else◌, length, take, drop, splice, Option, none, some,
}

-- One read or write call: it transfers at most so many bytes, is interrupted, or fails.
pub data Outcome : Type 0 where
  upto : ℕ → Outcome
  eintr error : Outcome

pub record Device : Type 0 where
  pub bytes : List ℕ
  -- whether `open` of the node gives a descriptor
  pub opens : Bool
  pub sched : List Outcome

-- How a write ends. `overrun` is a write call that is given more bytes than the buffer has.
pub data Status : Type 0 where
  success failure overrun : Status

pub data Errno : Type 0 where
  eio einval : Errno

-- How a read ends. `hang` is a loop that reads 0 bytes at the end of the device for ever.
pub data Result {ℓ} (A : Type ℓ) : Type ℓ where
  ok : A → Result A
  err : Errno → Result A
  hang : Result A

-- A computation over the schedule of the calls that it makes.
abbrev pub Io {ℓ} : Type ℓ → Type ℓ
Io A = List Outcome → Result A × List Outcome

-- What follows a computation that has ended so.
abbrev pub resume {ℓ κ} :
    {A : Type ℓ} {B : Type κ} → Result A × List Outcome → (A → Io B) → Result B × List Outcome
resume (ok a, t) f = f a t
resume (err e, t) f = (err e, t)
resume (hang, t) f = (hang, t)

infixl 5 ◌>>=◌
abbrev pub ◌>>=◌ {ℓ κ} : {A : Type ℓ} {B : Type κ} → Io A → (A → Io B) → Io B
◌>>=◌ m f s = resume (m s) f

abbrev pub return {ℓ} : {A : Type ℓ} → Result A → Io A
return r s = (r, s)

-- What one call transfers of `count` bytes where `room` are left.
abbrev pub transfer : ℕ → ℕ → ℕ → ℕ
transfer k count room = min k (min count room)

-- `src` is the device from the current position on, and `done` what the loop has read.
unfoldable pub robust_read :
    List Outcome → List ℕ → ℕ → Bool → List ℕ → Result (List ℕ) × List Outcome
robust_read [] src count short_ok done =
    let last = take count src in
    if short_ok || (length last == count) then (ok (done ++ last), []) else (hang, [])
robust_read (upto k ∷ s) src count short_ok done =
    let n = transfer k count (length src) in
    let rest = robust_read s (drop n src) (count - n) short_ok (done ++ take n src) in
    if short_ok || (count - n == 0) then (ok (done ++ take n src), s) else rest
robust_read (eintr ∷ s) src count short_ok done =
    let rest = robust_read s src count short_ok done in
    if short_ok || (count == 0) then (ok done, s) else rest
robust_read (error ∷ s) src count short_ok done = (err eio, s)

-- `buf` never moves on, so each call writes the front of the buffer; an interrupted call returns
-- -1, and subtracting that makes `count` one larger.
unfoldable pub robust_write :
    List Outcome → List ℕ → ℕ → List ℕ → ℕ → Status × List ℕ × List Outcome
robust_write [] dev pos buf count =
    if ltb (length buf) count
    then (overrun, dev, [])
    else if leb (pos + count) (length dev) || (count == 0)
    then (success, splice pos (take count buf) dev, [])
    else (failure, splice pos (take count buf) dev, [])
robust_write (upto k ∷ s) dev pos buf count =
    let n = transfer k count (length dev - pos) in
    let rest = robust_write s (splice pos (take n buf) dev) (pos + n) buf (count - n) in
    if count == 0
    then (success, dev, upto k ∷ s)
    else if ltb (length buf) count
    then (overrun, dev, s)
    else if n == 0
    then (failure, dev, s)
    else rest
robust_write (eintr ∷ s) dev pos buf count =
    let rest = robust_write s dev pos buf (count + 1) in
    if count == 0
    then (success, dev, eintr ∷ s)
    else if ltb (length buf) count
    then (overrun, dev, s)
    else rest
robust_write (error ∷ s) dev pos buf count =
    if count == 0
    then (success, dev, error ∷ s)
    else if ltb (length buf) count
    then (overrun, dev, s)
    else (failure, dev, s)

-- `lseek64` refuses an offset that is negative as a signed number.
abbrev pub seek_ok : Device → ℕ → Bool
seek_ok dev off = dev.opens && ltb off (2 ^ 63)

-- `lseek64`, then `robust_read` of the whole count.
unfoldable pub read_at : Device → ℕ → ℕ → Io (List ℕ)
read_at dev off count s =
    if seek_ok dev off then robust_read s (drop off dev.bytes) count false [] else (err eio, s)

-- `lseek64`, then `robust_write`.
unfoldable pub write_at : Device → ℕ → List ℕ → Status × Device
write_at dev off buf =
    let (st, bytes, s) = robust_write dev.sched dev.bytes off buf (length buf) in
    if seek_ok dev off then (st, record dev { bytes = bytes; sched = s }) else (failure, dev)

-- The next write where the last one succeeded; its failure otherwise.
abbrev pub and_then : Status × Device → (Device → Status × Device) → Status × Device
and_then (success, dev) next = next dev
and_then (failure, dev) next = (failure, dev)
and_then (overrun, dev) next = (overrun, dev)
