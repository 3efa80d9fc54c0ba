-- ===== src/Partitioner/Create/Skip.antt =====
-- The entries of a partition list that installer/partitioner.c `mkpart_cb` passes over.
use platform_bootable_iago.Base.{
  ℕ, ◌≡◌, refl, ap, ◌∙◌, sym, Bool, true, false, Bool-cases, inl, inr, List, [], ◌∷◌, Option, none,
  some, ◌&&◌, if◌then◌else◌, ltb, length, bytes_eq, u64, ◌+◌, ◌-◌, ◌^◌,
}
use mathlib.Core.Option.{some-injective, none-ne-some}
use platform_bootable_iago.Gpt.Guid.{PartType}
use platform_bootable_iago.Options.{Hashmap, get_or_die, string_list_iterate, iterate, xatoll}
use platform_bootable_iago.Partitioner.Android.{bootloader}
use platform_bootable_iago.Partitioner.Create.{
  Session, make_partition, mkpart_cb, partition_key, len_field, flags_field, type_field, ext4,
  flags_cb, string_to_type, is_negative, ◌>>=◌,
}

-- The entries of a list, without the bootloader's where that is to be skipped.
unfoldable pub unskipped : Bool → List (List ℕ) → List (List ℕ)
unskipped skip [] = []
unskipped skip (e ∷ es) =
    let rest = unskipped skip es in if skip && bytes_eq e bootloader then rest else e ∷ rest

-- What a step that came to a result went through.
pub bind-some {ℓ κ} :
    {A : Type ℓ} {B : Type κ} (r : Option A) (f : A → Option B) (b : B)
    → (r >>= f) ≡ some b
    → (a : A) × (r ≡ some a) × (f a ≡ some b)
bind-some none f b e = absurd (none-ne-some b e)
bind-some (some a) f b e = (a, refl, e)

module _ (hm : Hashmap) where
  if-some : (b : Bool) (s s' : Session hm) → (if b then none else some s) ≡ some s' → s ≡ s'
  if-some true s s' e = absurd (none-ne-some s' e)
  if-some false s s' e = some-injective s s' e

  abbrev skips : Session hm → Bool
  skips s = s.mc.skip_bootloader

  make_partition-keeps :
      (entry : List ℕ) (type : PartType) (flags part_mb : ℕ) (s s' : Session hm)
      → make_partition hm entry type flags part_mb s ≡ some s'
      → skips s' ≡ skips s
  unfolding make_partition
  make_partition-keeps entry type flags part_mb s s' e = ap skips (sym (if-some _ _ s' e))

  mkpart_cb-keeps :
      (entry : List ℕ) (s s' : Session hm) → mkpart_cb hm entry s ≡ some s' → skips s' ≡ skips s
  unfolding mkpart_cb
  mkpart_cb-keeps entry s s' e = elim (Bool-cases (skips s && bytes_eq entry bootloader)) [
    | inl skipped ↦ ap skips (sym (some-injective s s' (rw skipped at e)))
    | inr wanted ↦
        let (flags_list, _, e1) =
          bind-some (get_or_die hm (some []) (partition_key entry flags_field) s.opts) _ s'
            (rw wanted at e) in
        let (ptype, _, e2) =
          bind-some (get_or_die hm (some ext4) (partition_key entry type_field) s.opts) _ s' e1 in
        let (flags, _, e3) = bind-some (string_list_iterate flags_list flags_cb 0) _ s' e2 in
        let (len, _, e4) =
          bind-some
            (if ltb 27 (length entry)
              then none
              else get_or_die hm none (partition_key entry len_field) s.opts)
            _ s' e3 in
        let (part_mb, _, e5) = bind-some (xatoll len) _ s' e4 in
        let (type, _, e6) = bind-some (string_to_type ptype) _ s' e5 in
        make_partition-keeps entry type flags
          (if is_negative part_mb then u64 (s.mc.disk_mb + 2 ^ 64 - s.mc.ptn_mb) else part_mb) s s'
          e6
  ]

  passes :
      (s : Session hm) (e : List ℕ)
      → (skips s && bytes_eq e bootloader) ≡ true
      → mkpart_cb hm e s ≡ some s
  unfolding mkpart_cb
  passes s e skipped = rw skipped refl

  abbrev next_of : List (List ℕ) → Option (Session hm) → Option (Session hm)
  next_of es none = none
  next_of es (some s') = iterate (mkpart_cb hm) es s'

  iterate-cons :
      (e : List ℕ) (es : List (List ℕ)) (s : Session hm) (r : Option (Session hm))
      → mkpart_cb hm e s ≡ r
      → iterate (mkpart_cb hm) (e ∷ es) s ≡ next_of es r
  unfolding iterate
  iterate-cons e es s none now = ap (next_of es) now
  iterate-cons e es s (some s') now = ap (next_of es) now

  unskipped-cons :
      (b : Bool) (e : List ℕ) (es : List (List ℕ)) (skip : Bool)
      → (skip && bytes_eq e bootloader) ≡ b
      → unskipped skip (e ∷ es) ≡ (if b then unskipped skip es else e ∷ unskipped skip es)
  unfolding unskipped
  unskipped-cons b e es skip now =
      ap (λ x. if x then unskipped skip es else e ∷ unskipped skip es) now

  -- The loop over a list does what it does over the entries that are not skipped.
  pub iterate-unskipped :
      (es : List (List ℕ)) (s : Session hm)
      → iterate (mkpart_cb hm) es s ≡ iterate (mkpart_cb hm) (unskipped (skips s) es) s
  unfolding unskipped
  iterate-unskipped [] s = refl
  iterate-unskipped (e ∷ es) s = elim (Bool-cases (skips s && bytes_eq e bootloader)) [
    | inl skipped ↦
        iterate-cons e es s (some s) (passes s e skipped)
        ∙ iterate-unskipped es s
        ∙ sym (ap (λ x. iterate (mkpart_cb hm) x s) (unskipped-cons true e es (skips s) skipped))
    | inr wanted ↦
        go (λ s'. iterate-unskipped es s') (mkpart_cb hm e s) refl
        ∙ sym (ap (λ x. iterate (mkpart_cb hm) x s) (unskipped-cons false e es (skips s) wanted))
  ]
    where
      go :
          ((s' : Session hm)
            → iterate (mkpart_cb hm) es s' ≡ iterate (mkpart_cb hm) (unskipped (skips s') es) s')
          → (r : Option (Session hm)) → mkpart_cb hm e s ≡ r
          → iterate (mkpart_cb hm) (e ∷ es) s
            ≡ iterate (mkpart_cb hm) (e ∷ unskipped (skips s) es) s
      go rest none now =
          iterate-cons e es s none now ∙ sym (iterate-cons e (unskipped (skips s) es) s none now)
      go rest (some s') now =
          iterate-cons e es s (some s') now
          ∙ rest s'
          ∙ ap (λ b. iterate (mkpart_cb hm) (unskipped b es) s') (mkpart_cb-keeps e s s' now)
          ∙ sym (iterate-cons e (unskipped (skips s) es) s (some s') now)
