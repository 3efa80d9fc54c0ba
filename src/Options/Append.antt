-- ===== src/Options/Append.antt =====
-- Adding to a string list: installer/util.c `string_list_append` and `string_list_prepend`, and what
-- `string_list_iterate` finds in the result. A list pointer of NULL is the empty string.
use platform_bootable_iago.Base.{
  ℕ, ◌≤◌, ◌≡◌, refl, ap, ◌∙◌, false, Bool-cases, inl, inr, List, [], ◌∷◌, ◌++◌, ◌==◌, if◌then◌else◌,
  length, All, arith,
}
use platform_bootable_iago.Options.{is_separator, keep_word, cut, entries_of}

unfoldable pub string_list_append : List ℕ → List ℕ → List ℕ
string_list_append list entry = if length list == 0 then entry else list ++ (32 ∷ entry)

unfoldable pub string_list_prepend : List ℕ → List ℕ → List ℕ
string_list_prepend list entry = if length list == 0 then entry else entry ++ (32 ∷ list)

-- An entry as `strtok_r` finds it: some characters, and no separator among them.
abbrev pub IsWord : List ℕ → Type 0
IsWord w = (1 ≤ length w) × All (λ c. is_separator c ≡ false) w

keep_word-append :
    (w : List ℕ) (xs ys : List (List ℕ)) → keep_word w (xs ++ ys) ≡ keep_word w xs ++ ys
keep_word-append [] xs ys = refl
keep_word-append (c ∷ w) xs ys = refl

-- A space parts the words before it from those behind it.
cut-space : (xs ys : List ℕ) → cut (xs ++ (32 ∷ ys)) ≡ ((cut xs).0, (cut xs).1 ++ entries_of ys)
unfolding cut entries_of
cut-space [] ys = refl
cut-space (c ∷ cs) ys = elim (Bool-cases (is_separator c)) [
  | inl sep ↦
      rw (sep, cut-space cs ys) (ap (λ z. ([], z)) (keep_word-append (cut cs).0 (cut cs).1 _))
  | inr char ↦ rw (char, cut-space cs ys) refl
]

cut_word : (w : List ℕ) → All (λ c. is_separator c ≡ false) w → cut w ≡ (w, [])
unfolding cut
cut_word [] all = refl
cut_word (c ∷ cs) all = rw (all.0, cut_word cs all.1) refl

entries_of-word : (w : List ℕ) → IsWord w → entries_of w ≡ w ∷ []
unfolding entries_of
entries_of-word [] h = absurd (omega (arith, h))
entries_of-word (c ∷ cs) h = rw (cut_word (c ∷ cs) h.1) refl

entries_of-space : (xs ys : List ℕ) → entries_of (xs ++ (32 ∷ ys)) ≡ entries_of xs ++ entries_of ys
unfolding entries_of
entries_of-space xs ys =
    ap (λ c. keep_word c.0 c.1) (cut-space xs ys)
    ∙ keep_word-append (cut xs).0 (cut xs).1 (entries_of ys)

-- An appended word is the last entry of the list.
pub entries_of-string_list_append :
    (list w : List ℕ)
    → IsWord w
    → entries_of (string_list_append list w) ≡ entries_of list ++ (w ∷ [])
unfolding string_list_append entries_of cut
entries_of-string_list_append [] w h = entries_of-word w h
entries_of-string_list_append (c ∷ cs) w h =
    let long : (length (c ∷ cs) == 0) ≡ false = ground arith in
    rw long (entries_of-space (c ∷ cs) w) ∙ ap (λ z. entries_of (c ∷ cs) ++ z) (entries_of-word w h)

-- A prepended word is the first entry of the list.
pub entries_of-string_list_prepend :
    (list w : List ℕ) → IsWord w → entries_of (string_list_prepend list w) ≡ w ∷ entries_of list
unfolding string_list_prepend entries_of cut
entries_of-string_list_prepend [] w h = entries_of-word w h
entries_of-string_list_prepend (c ∷ cs) w h =
    let long : (length (c ∷ cs) == 0) ≡ false = ground arith in
    rw long (entries_of-space w (c ∷ cs)) ∙ ap (λ z. z ++ entries_of (c ∷ cs)) (entries_of-word w h)
