-- ===== src/Gpt/Disk/Read.antt =====
-- `read_gpt_data` and `gpt_read` of libgpt/gpt.c on a disk that `gpt_write` has written.
use platform_bootable_iago.Base.{
  ℕ, ◌+◌, ◌-◌, ◌*◌, ◌^◌, ◌≡◌, refl, ap, ◌∙◌, sym, List, slice, Bool, true, if◌then◌else◌, ◌==◌,
  ==_iff, u64, bytes_eq, bytes_eq_refl, bytes_eq_sound, Bool-cases, inl, inr, ◌≢◌,
}
use mathlib.Core.Path.{subst}
use platform_bootable_iago.Device.{
  Device, Outcome, ok, err, Io, ◌>>=◌, resume, read_at, Errno, einval, return,
}
use platform_bootable_iago.Device.Laws.{Calm, Reachable, read_at-slice}
use platform_bootable_iago.Gpt.Header.{
  Header, IsHeader, encode_header, decode_header, efi_part, header_bytes,
}
use platform_bootable_iago.Gpt.Header.Laws.{decode_header-encode_header}
use platform_bootable_iago.Gpt.Table.{Gpt}
use platform_bootable_iago.Gpt.Disk.{
  Host, entries_size, get_entries_crc32, get_header_crc32, read_entries, read_gpt_data, check, ◌>>◌,
  read_either, or_else, both_failed,
}

-- How a computation ends that goes on without an error from a calm schedule.
abbrev pub Ends {ℓ} : {A : Type ℓ} → Io A → List Outcome → A → Type ℓ
Ends m s a = (t : List Outcome) × (m s ≡ (ok a, t)) × Calm t

pub >>=-Ends {ℓ κ} :
    {A : Type ℓ} {B : Type κ} (m : Io A) (f : A → Io B) (s : List Outcome) (a : A) (b : B)
    → Ends m s a
    → ((t : List Outcome) → Calm t → Ends (f a) t b)
    → Ends (m >>= f) s b
>>=-Ends m f s a b (t, e, calm) next =
    let (u, e', calm') = next t calm in (u, ap (λ r. resume r f) e ∙ e', calm')

pub check-Ends {ℓ} :
    {A : Type ℓ} (test : Bool) (k : Io A) (s : List Outcome) (a : A)
    → test ≡ true
    → Ends k s a
    → Ends (check test >> k) s a
check-Ends test k s a e (t, r, calm) = (t, ap (λ b. resume (check b s) (λ _. k)) e ∙ r, calm)

module _ (host : Host) where
  -- A header struct on the disk whose checksums are those of itself and of the array it points to.
  pub record Sound (d : Device) (g : Gpt) (oh oa : ℕ) (h : Header) (es : List ℕ) : Type 0 where
    pub header : IsHeader h
    pub sig : h.sig ≡ efi_part
    pub header_at : slice oh header_bytes d.bytes ≡ encode_header h
    pub array_at : slice oa (entries_size (record g { header = h })) d.bytes ≡ es
    pub header_crc : get_header_crc32 host h ≡ h.crc32
    pub array_crc : get_entries_crc32 host (record g { header = h; entries = es }) ≡ h.pentry_crc32
    pub header_in : Reachable d oh header_bytes
    pub array_in : Reachable d oa (entries_size (record g { header = h }))
    pub array_off : u64 (h.pentry_start_lba * g.lba_size) ≡ oa

  -- The first block that is read.
  abbrev pub start_of : Bool → Gpt → ℕ
  start_of primary g = u64 ((if primary then 1 else u64 (g.sectors + 2 ^ 64 - 1)) * g.lba_size)

  module _ (d : Device) (g : Gpt) (oh oa : ℕ) (h : Header) (es : List ℕ)
      (v : Sound d g oh oa h es) where
    abbrev found : Gpt
    found = record g { header = h; entries = es }

    read_array-Ends :
        (s : List Outcome)
        → Calm s
        → Ends (read_at d (u64 (h.pentry_start_lba * g.lba_size)) (entries_size found)) s es
    read_array-Ends s calm =
        let (t, e, calm') = read_at-slice d oa (entries_size found) s v.array_in calm in
        (t, rw (v.array_off, e, v.array_at), calm')

    -- `read_entries` from its last statement to its first.
    abbrev finish : List ℕ → Io Gpt
    finish bytes =
        let full : Gpt = record g { header = h; entries = bytes } in
        check (get_entries_crc32 host full == h.pentry_crc32) >> return (ok full)

    abbrev fetch : Io Gpt
    fetch = read_at d (u64 (h.pentry_start_lba * g.lba_size)) (entries_size found) >>= finish

    abbrev crc_checked : Io Gpt
    crc_checked = check (get_header_crc32 host h == h.crc32) >> fetch

    finish-Ends : (s : List Outcome) → Calm s → Ends (finish es) s found
    finish-Ends s calm =
        check-Ends (get_entries_crc32 host found == h.pentry_crc32) (return (ok found)) s found
          ((==_iff (get_entries_crc32 host found) h.pentry_crc32).1 v.array_crc) (s, refl, calm)

    fetch-Ends : (s : List Outcome) → Calm s → Ends fetch s found
    fetch-Ends s calm =
        >>=-Ends (read_at d (u64 (h.pentry_start_lba * g.lba_size)) (entries_size found)) finish s
          es found (read_array-Ends s calm) finish-Ends

    read_entries-Ends : (s : List Outcome) → Calm s → Ends (read_entries host d g h) s found
    unfolding read_entries
    read_entries-Ends s calm =
        check-Ends (bytes_eq efi_part h.sig) crc_checked s found (rw v.sig (bytes_eq_refl efi_part))
          (check-Ends (get_header_crc32 host h == h.crc32) fetch s found
            ((==_iff (get_header_crc32 host h) h.crc32).1 v.header_crc) (fetch-Ends s calm))

    pub read_gpt_data-Ends :
        (primary : Bool) (s : List Outcome)
        → start_of primary g ≡ oh
        → Calm s
        → Ends (read_gpt_data host d primary g) s found
    unfolding read_gpt_data
    read_gpt_data-Ends primary s start calm =
        >>=-Ends (read_at d (start_of primary g) header_bytes)
          (λ raw. read_entries host d g (decode_header raw)) s (encode_header h) found header_read
          (λ t calm'.
            subst (λ h'. Ends (read_entries host d g h') t found)
              (sym (decode_header-encode_header h v.header)) (read_entries-Ends t calm'))
      where
        header_read : Ends (read_at d (start_of primary g) header_bytes) s (encode_header h)
        header_read =
            let (t, e, calm') = read_at-slice d oh header_bytes s v.header_in calm in
            (t, rw (start, e, v.header_at), calm')

-- `read_either` ends with the first copy where that can be read, and else with the second.
pub read_either-first {ℓ} :
    {A : Type ℓ} (first second : Io A) (s : List Outcome) (a : A)
    → Ends first s a
    → Ends (read_either first second) s a
read_either-first first second s a (t, e, calm) = (t, ap (λ r. or_else r second) e, calm)

pub read_either-second {ℓ} :
    {A : Type ℓ} (first second : Io A) (s t : List Outcome) (e : Errno) (a : A)
    → first s ≡ (err e, t)
    → Ends second t a
    → Ends (read_either first second) s a
read_either-second first second s t e a fails (u, e', calm) =
    (u, ap (λ r. or_else r second) fails ∙ ap both_failed e', calm)

-- A header with another signature is refused.
pub read_entries-sig :
    (host : Host) (d : Device) (g : Gpt) (h : Header) (s : List Outcome)
    → h.sig ≢ efi_part
    → read_entries host d g h s ≡ (err einval, s)
unfolding read_entries
read_entries-sig host d g h s ne = elim (Bool-cases (bytes_eq efi_part h.sig)) [
  | inl same ↦ absurd (ne (sym (bytes_eq_sound efi_part h.sig same)))
  | inr differs ↦ rw differs
]
