-- ===== src/Partitioner/Create/Keys.antt =====
-- The option keys that installer/partitioner.c reads and those that it writes are different ones.
use platform_bootable_iago.Base.{
  ℕ, ◌+◌, ◌*◌, ◌≡◌, ◌≢◌, refl, ap, ◌∙◌, sym, arith, List, [], ◌∷◌, ◌++◌,
}
use platform_bootable_iago.Partitioner.Create.{
  partition_key, len_field, flags_field, type_field, index_field, device_field,
}

-- The last two characters of a string, as one number.
ending : List ℕ → ℕ
ending [] = 0
ending (c ∷ []) = c
ending (c ∷ d ∷ []) = c * 256 + d
ending (c ∷ d ∷ e ∷ cs) = ending (d ∷ e ∷ cs)

ending-append :
    (xs : List ℕ) (a b : ℕ) (ys : List ℕ) → ending (xs ++ (a ∷ b ∷ ys)) ≡ ending (a ∷ b ∷ ys)
unfolding ending
ending-append [] a b ys = refl
ending-append (x ∷ []) a b ys = refl
ending-append (x ∷ y ∷ []) a b ys = refl
ending-append (x ∷ y ∷ z ∷ xs) a b ys = ending-append (y ∷ z ∷ xs) a b ys

ending-key :
    (entry : List ℕ) (a b : ℕ) (ys : List ℕ)
    → ending (partition_key entry (a ∷ b ∷ ys)) ≡ ending (a ∷ b ∷ ys)
ending-key entry a b ys =
    ending-append (b'p' ∷ b'a' ∷ b'r' ∷ b't' ∷ b'i' ∷ b't' ∷ b'i' ∷ b'o' ∷ b'n' ∷ b'.' ∷ entry) a b
      ys

-- Keys of fields with different endings differ, whatever the entries.
keys_differ :
    (e e' : List ℕ) (a b : ℕ) (ys : List ℕ) (a' b' : ℕ) (ys' : List ℕ)
    → ending (a ∷ b ∷ ys) ≢ ending (a' ∷ b' ∷ ys')
    → partition_key e (a ∷ b ∷ ys) ≢ partition_key e' (a' ∷ b' ∷ ys')
keys_differ e e' a b ys a' b' ys' ne same =
    ne (sym (ending-key e a b ys) ∙ ap ending same ∙ ending-key e' a' b' ys')

-- A key that no `mkpart_cb` writes.
abbrev pub IsRead : List ℕ → Type 0
IsRead k =
    ((e : List ℕ) → partition_key e device_field ≢ k)
    × ((e : List ℕ) → partition_key e index_field ≢ k)

pub len_field-IsRead : (entry : List ℕ) → IsRead (partition_key entry len_field)
unfolding ending
len_field-IsRead entry = (
  λ e. keys_differ e entry _ _ _ _ _ _ (λ z. omega arith),
  λ e. keys_differ e entry _ _ _ _ _ _ (λ z. omega arith),
)

pub flags_field-IsRead : (entry : List ℕ) → IsRead (partition_key entry flags_field)
unfolding ending
flags_field-IsRead entry = (
  λ e. keys_differ e entry _ _ _ _ _ _ (λ z. omega arith),
  λ e. keys_differ e entry _ _ _ _ _ _ (λ z. omega arith),
)

pub type_field-IsRead : (entry : List ℕ) → IsRead (partition_key entry type_field)
unfolding ending
type_field-IsRead entry = (
  λ e. keys_differ e entry _ _ _ _ _ _ (λ z. omega arith),
  λ e. keys_differ e entry _ _ _ _ _ _ (λ z. omega arith),
)
