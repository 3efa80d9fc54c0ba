-- ===== src/Preinit/Laws.antt =====
-- What preinit/preinit.c finds and leaves mounted, and when it gives up.
use platform_bootable_iago.Base.{
  ℕ, ◌+◌, ◌≡◌, ◌⊎◌, refl, ap, ◌∙◌, arith, Bool, true, false, not, ◌||◌, inl, inr, List, [], ◌∷◌,
  Option, none, some, ◌==◌, if◌then◌else◌, length, take, bytes_eq,
}
use mathlib.Core.Path.{subst}
use mathlib.Core.Option.{some-injective, none-ne-some}
use platform_bootable_iago.Preinit.Detect.{Ext2, Fs, detect_fs}
use platform_bootable_iago.Preinit.{
  Place, install_mount, install_media, Sys, Media, has_colon, umount, mount, unlink_node, try_mount,
  with_info, is_install_media, Disk, scan_entries, scan_disk, Search, found, not_found, after_disk,
  scan_disks, mount_device,
}

-- The mounts of the installation media on top of others.
abbrev pub media_on : Bool → List Place → List Place
media_on true ps = install_media ∷ install_mount ∷ ps
media_on false ps = ps

-- Without a temporary node, and with the mounts of the media exactly where it was found.
abbrev pub Clean : Bool → Sys → Sys → Type 0
Clean b s s' = (s'.tmp_node ≡ false) × (s'.mounts ≡ media_on b s.mounts)

abbrev Keeps : Sys → Bool × Sys → Type 0
Keeps s r = Clean r.0 s r.1

if-Keeps :
    (s : Sys) (c : Bool) (x y : Bool × Sys)
    → (c ≡ true → Keeps s x)
    → (c ≡ false → Keeps s y)
    → Keeps s (if c then x else y)
if-Keeps s true x y hx hy = hx refl
if-Keeps s false x y hx hy = hy refl

-- What a device without media leaves is no different for the next one.
Clean-after : (s s' : Sys) (r : Bool × Sys) → Clean false s s' → Keeps s' r → Keeps s r
Clean-after s s' r c d = (d.0, d.1 ∙ ap (media_on r.0) c.1)

module _ (ext : Ext2) where
  try_mount-Clean :
      (m : Media) (r : Option Fs) (s : Sys)
      → Clean (try_mount ext m r s).0 s (try_mount ext m r s).1
  unfolding try_mount
  try_mount-Clean m none s = (refl, refl)
  try_mount-Clean m (some fs) s = go (m.mounts_as fs) m.binds m.has_cookie
    where
      answer : Bool → Bool → Bool → Bool × Sys
      answer mounts binds cookie =
          if not mounts
          then (false, unlink_node s)
          else if not binds
          then (false, unlink_node (umount (mount install_mount s)))
          else if not cookie
          then (false, unlink_node (umount (umount (mount install_media (mount install_mount s)))))
          else (true, unlink_node (mount install_media (mount install_mount s)))

      go :
          (mounts binds cookie : Bool)
          → Clean (answer mounts binds cookie).0 s (answer mounts binds cookie).1
      go true true true = (refl, refl)
      go true true false = (refl, refl)
      go true false cookie = (refl, refl)
      go false binds cookie = (refl, refl)

  -- Before there is a node nothing is mounted.
  with_info-Clean :
      (m : Media) (r : Option (List ℕ)) (s : Sys)
      → s.tmp_node ≡ false
      → Clean (with_info ext m r s).0 s (with_info ext m r s).1
  unfolding with_info
  with_info-Clean m none s clean = (clean, refl)
  with_info-Clean m (some info) s clean = go (length info == 0) (has_colon info) m.mknod_ok
    where
      node : Sys
      node = record s { tmp_node = true }

      answer : Bool → Bool → Bool → Bool × Sys
      answer nothing colon made =
          if nothing
          then (false, record s { open_fds = s.open_fds + 1 })
          else if not colon
          then (false, s)
          else if not made
          then (false, s)
          else try_mount ext m (detect_fs ext m.bytes) node

      go :
          (nothing colon made : Bool)
          → Clean (answer nothing colon made).0 s (answer nothing colon made).1
      go true colon made = (clean, refl)
      go false false made = (clean, refl)
      go false true false = (clean, refl)
      go false true true = try_mount-Clean m (detect_fs ext m.bytes) node

  is_install_media-Clean :
      (m : Media) (s : Sys) → s.tmp_node ≡ false → Keeps s (is_install_media ext m s)
  unfolding is_install_media
  is_install_media-Clean m s clean =
      if-Keeps s (not m.dev_opens) _ _ (λ e. (clean, refl))
        (λ e. with_info-Clean m m.dev_info s clean)

  scan_entries-Clean :
      (skip : List ℕ → Bool) (disk : List ℕ) (es : List (List ℕ × Media)) (s : Sys)
      → s.tmp_node ≡ false
      → Keeps s (scan_entries ext skip disk es s)
  unfolding scan_entries
  scan_entries-Clean skip disk [] s clean = (clean, refl)
  scan_entries-Clean skip disk ((name, m) ∷ es) s clean =
      let here = is_install_media-Clean m s clean in
      let s' = (is_install_media ext m s).1 in
      if-Keeps s (skip name || not (bytes_eq (take (length disk) name) disk)) _ _
        (λ e. scan_entries-Clean skip disk es s clean)
        (λ e.
          if-Keeps s (is_install_media ext m s).0 _ _ (λ hit. subst (λ b. Clean b s s') hit here)
            (λ miss.
              Clean-after s s' (scan_entries ext skip disk es s')
                (subst (λ b. Clean b s s') miss here) (scan_entries-Clean skip disk es s' here.0)))

  -- The state behind a disk, and what was found there.
  abbrev pub is_found : Search ext → Bool
  is_found (found name) = true
  is_found not_found = false

  abbrev KeepsSearch : Sys → Search ext × Sys → Type 0
  KeepsSearch s r = Clean (is_found r.0) s r.1

  if-KeepsSearch :
      (s : Sys) (c : Bool) (x y : Search ext × Sys)
      → (c ≡ true → KeepsSearch s x)
      → (c ≡ false → KeepsSearch s y)
      → KeepsSearch s (if c then x else y)
  if-KeepsSearch s true x y hx hy = hx refl
  if-KeepsSearch s false x y hx hy = hy refl

  Clean-search :
      (s s' : Sys) (r : Search ext × Sys) → Clean false s s' → KeepsSearch s' r → KeepsSearch s r
  Clean-search s s' r c d = (d.0, d.1 ∙ ap (media_on (is_found r.0)) c.1)

  after_disk-Clean :
      (name : List ℕ) (s : Sys) (r : Option (Bool × Sys)) (next : Sys → Search ext × Sys)
      → s.tmp_node ≡ false
      → ((x : Bool × Sys) → r ≡ some x → Keeps s x)
      → ((s' : Sys) → s'.tmp_node ≡ false → KeepsSearch s' (next s'))
      → KeepsSearch s (after_disk ext name s r next)
  after_disk-Clean name s none next clean kept rest = (clean, refl)
  after_disk-Clean name s (some (true, s')) next clean kept rest = kept (true, s') refl
  after_disk-Clean name s (some (false, s')) next clean kept rest =
      let c = kept (false, s') refl in Clean-search s s' (next s') c (rest s' c.0)

  scan_disk-Clean :
      (skip : List ℕ → Bool) (d : Disk ext) (s : Sys) (x : Bool × Sys)
      → s.tmp_node ≡ false
      → scan_disk ext skip d s ≡ some x
      → Keeps s x
  unfolding scan_disk
  scan_disk-Clean skip d s x clean e = go d.entries e
    where
      go :
          (r : Option (List (List ℕ × Media)))
          → elim r as (λ y. Option (Bool × Sys)) [
            | none ↦ none
            | some es ↦ some (scan_entries ext skip d.name es s)
          ]
            ≡ some x
          → Keeps s x
      go none e = absurd (none-ne-some x e)
      go (some es) e =
          subst (Keeps s) (some-injective _ x e) (scan_entries-Clean skip d.name es s clean)

  scan_disks-Clean :
      (skip : List ℕ → Bool) (ds : List (Disk ext)) (s : Sys)
      → s.tmp_node ≡ false
      → KeepsSearch s (scan_disks ext skip ds s)
  unfolding scan_disks
  scan_disks-Clean skip [] s clean = (clean, refl)
  scan_disks-Clean skip (d ∷ ds) s clean =
      let here = is_install_media-Clean d.media s clean in
      let s' = (is_install_media ext d.media s).1 in
      if-KeepsSearch s (skip d.name) _ _ (λ e. scan_disks-Clean skip ds s clean)
        (λ e.
          if-KeepsSearch s (is_install_media ext d.media s).0 _ _
            (λ hit. subst (λ b. Clean b s s') hit here)
            (λ miss.
              let c = subst (λ b. Clean b s s') miss here in
              Clean-search s s'
                (after_disk ext d.name s' (scan_disk ext skip d s') (scan_disks ext skip ds)) c
                (after_disk-Clean d.name s' (scan_disk ext skip d s') (scan_disks ext skip ds) c.0
                  (λ x found_x. scan_disk-Clean skip d s' x c.0 found_x)
                  (λ s'' clean''. scan_disks-Clean skip ds s'' clean''))))

  -- However the devices answer, from a state without the temporary node `mount_device` leaves no
  -- temporary node, and its mounts are either those that were there before or those and the two of
  -- the installation media; where it returns 0, the media are mounted.
  pub mount_device-Clean :
      (skip : List ℕ → Bool) (disks : Option (List (Disk ext))) (written : Bool) (s : Sys)
      → s.tmp_node ≡ false
      → let r = mount_device ext skip disks written s in
        (r.1.tmp_node ≡ false)
        × ((r.1.mounts ≡ media_on false s.mounts) ⊎ (r.1.mounts ≡ media_on true s.mounts))
        × (r.0 ≡ true → r.1.mounts ≡ media_on true s.mounts)
  unfolding mount_device
  mount_device-Clean skip none written s clean = (clean, inl refl, λ e. ground arith)
  mount_device-Clean skip (some disks) written s clean =
      go (scan_disks ext skip disks s) (scan_disks-Clean skip disks s clean)
    where
      answer : Search ext → Sys → Bool × Sys
      answer search s' = elim search [ found name ↦ (written, s') | not_found ↦ (false, s') ]

      go :
          (r : Search ext × Sys)
          → KeepsSearch s r
          → ((answer r.0 r.1).1.tmp_node ≡ false)
            × (((answer r.0 r.1).1.mounts ≡ media_on false s.mounts)
                ⊎ ((answer r.0 r.1).1.mounts ≡ media_on true s.mounts))
            × ((answer r.0 r.1).0 ≡ true → (answer r.0 r.1).1.mounts ≡ media_on true s.mounts)
      go (found name, s') c = (c.0, inr c.1, λ e. c.1)
      go (not_found, s') c = (c.0, inl c.1, λ e. ground arith)
