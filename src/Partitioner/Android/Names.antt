-- ===== src/Partitioner/Android/Names.antt =====
-- The names of Android's partitions in installer/partitioner.c.
use platform_bootable_iago.Base.{
  ℕ, ◌≡◌, ◌≢◌, ◌↔◌, ap, ◌∙◌, sym, arith, true, Bool-cases, inl, inr, ==_iff, List, ◌++◌, take, drop,
  length, take-drop, length-drop, bytes_eq, bytes_eq_refl, bytes_eq_sound,
}
use mathlib.Core.Path.{subst}
use platform_bootable_iago.Partitioner.Android.{name_magic, bootloader, is_android}

-- A name that begins with "android_" and goes on with anything but "bootloader".
abbrev pub IsAndroidName : List ℕ → Type 0
IsAndroidName name = (rest : List ℕ) × (name ≡ name_magic ++ rest) × (rest ≢ bootloader)

-- The name of a partition that is deleted with Android is one that begins with "android_" and goes
-- on with anything but "bootloader".
pub is_android_iff : (name : List ℕ) → (is_android name ≡ true) ↔ IsAndroidName name
unfolding is_android
is_android_iff name =
    (there, λ (rest, e, ne). subst (λ n. is_android n ≡ true) (sym e) (back rest ne))
  where
    there : is_android name ≡ true → IsAndroidName name
    there h = elim (Bool-cases (bytes_eq (take 8 name) name_magic)) [
      | inl begins ↦ (
        drop 8 name,
        sym (take-drop 8 name)
            ∙ ap (λ p. p ++ drop 8 name) (bytes_eq_sound (take 8 name) name_magic begins),
        λ same.
            let eighteen : length name ≡ 18 = omega (arith, ap length same, length-drop 8 name) in
            let e1 = (==_iff (length name) 18).1 eighteen in
            let e2 = ap (λ r. bytes_eq r bootloader) same ∙ bytes_eq_refl bootloader in
            absurd (ground (arith, h, begins, e1, e2)),
      )
      | inr other ↦ absurd (ground (arith, h, other))
    ]

    back : (rest : List ℕ) → rest ≢ bootloader → is_android (name_magic ++ rest) ≡ true
    back rest ne = elim (Bool-cases (bytes_eq rest bootloader)) [
      | inl same ↦ absurd (ne (bytes_eq_sound rest bootloader same))
      | inr differs ↦ ground (arith, bytes_eq_refl name_magic, differs)
    ]
