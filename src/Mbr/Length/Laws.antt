-- ===== src/Mbr/Length/Laws.antt =====
-- The lengths that editdisklbl/diskconfig.c `parse_len` accepts.
use platform_bootable_iago.Base.{
  ℕ, ◌+◌, ◌-◌, ◌*◌, ◌^◌, ◌≤◌, ◌<◌, ◌≡◌, ◌⊎◌, inl, inr, refl, ap, ◌∙◌, sym, arith, false, List, [],
  ◌∷◌, ◌++◌, some, ltb, lt→ltb, ◌==◌, ==_iff, if◌then◌else◌, take, take-all, take-append, length,
  length-append, u64, Bool-cases,
}
use mathlib.Core.Option.{some-injective, none-ne-some}
use platform_bootable_iago.Gpt.Name.{last_char}
use platform_bootable_iago.Mbr.Length.{
  strtoull, multiple_of, scaled, number_part, parse_tmp, parse_len,
}

scaled_bounds :
    (len multiple n : ℕ) → scaled len multiple ≡ some n → (n ≤ 0xffffffff) ⊎ (n ≡ 2 ^ 64 - 1)
unfolding scaled
scaled_bounds len multiple n e = elim (Bool-cases (len == 0)) [
  | inl empty ↦ absurd (none-ne-some n (rw empty at e))
  | inr some_len ↦ elim (Bool-cases (len == 2 ^ 64 - 1)) [
    | inl all ↦ elim (Bool-cases (ltb 1 multiple)) [
      | inl suffix ↦ absurd (none-ne-some n (rw (some_len, all, suffix) at e))
      | inr plain ↦
          let same = some-injective len n (rw (some_len, all, plain) at e) in
          let value = (==_iff len (2 ^ 64 - 1)).0 all in inr (omega arith)
    ]
    | inr part ↦ within some_len part e
  ]
]
  where
    kb : ℕ
    kb = u64 (len * (if ltb 1024 multiple then 1024 else multiple))

    within :
        (len == 0) ≡ false
        → (len == 2 ^ 64 - 1) ≡ false
        → scaled len multiple ≡ some n
        → (n ≤ 0xffffffff) ⊎ (n ≡ 2 ^ 64 - 1)
    within some_len part e = elim (Bool-cases (ltb 0xffffffff kb)) [
      | inl large ↦ absurd (none-ne-some n (rw (some_len, part, large) at e))
      | inr small ↦
          let same : kb ≡ n = some-injective kb n (rw (some_len, part, small) at e) in
          inl (ground arith)
    ]

parse_tmp_bounds :
    (tmp : List ℕ) (n : ℕ) → parse_tmp tmp ≡ some n → (n ≤ 0xffffffff) ⊎ (n ≡ 2 ^ 64 - 1)
unfolding parse_tmp
parse_tmp_bounds tmp n e = elim (Bool-cases (length tmp == 0)) [
  | inl empty ↦ absurd (none-ne-some n (rw empty at e))
  | inr full ↦
      scaled_bounds (strtoull (number_part tmp)) (multiple_of (last_char tmp)) n (rw full at e)
]

-- A length that `parse_len` accepts is a 32-bit number of KB, or the -1 of a partition that fills
-- the disk.
pub parse_len_bounds :
    (str : List ℕ) (n : ℕ) → parse_len str ≡ some n → (n ≤ 0xffffffff) ⊎ (n ≡ 2 ^ 64 - 1)
unfolding parse_len
parse_len_bounds str n e = parse_tmp_bounds (take 63 str) n e

last_char-append : (xs : List ℕ) (c : ℕ) → last_char (xs ++ (c ∷ [])) ≡ c
last_char-append [] c = refl
last_char-append (x ∷ []) c = refl
last_char-append (x ∷ y ∷ xs) c = last_char-append (y ∷ xs) c

module _ (str : List ℕ) (c : ℕ) (short : length str ≤ 62) (factor : 1 < multiple_of c) where
  len : length (str ++ (c ∷ [])) ≡ length str + 1
  len = length-append str (c ∷ [])

  number_part-suffix : number_part (str ++ (c ∷ [])) ≡ str
  unfolding number_part
  number_part-suffix =
      rw (last_char-append str c, lt→ltb 1 (multiple_of c) factor)
        (ap (λ n. take n (str ++ (c ∷ [])))
            (let e : length (str ++ (c ∷ [])) - 1 ≡ length str = omega (arith, len) in e)
          ∙ take-append (length str) str (c ∷ []) refl)

  parse_len_suffix : parse_len (str ++ (c ∷ [])) ≡ scaled (strtoull str) (multiple_of c)
  unfolding parse_len
  parse_len_suffix = ap parse_tmp (take-all 63 (str ++ (c ∷ [])) (omega (arith, len))) ∙ tmp_suffix
    where
      some_char : (length (str ++ (c ∷ [])) == 0) ≡ false
      some_char = ground (arith, len)

      tmp_suffix : parse_tmp (str ++ (c ∷ [])) ≡ scaled (strtoull str) (multiple_of c)
      tmp_suffix = rw (parse_tmp, some_char, number_part-suffix, last_char-append str c) refl

-- `parse_len` gives the same length for a string with the suffix K and for the string with the
-- suffix M, where the string without it has at most 62 characters.
pub parse_len-kilo_mega :
    (str : List ℕ)
    → length str ≤ 62
    → parse_len (str ++ (b'K' ∷ [])) ≡ parse_len (str ++ (b'M' ∷ []))
unfolding multiple_of scaled
parse_len-kilo_mega str short =
    parse_len_suffix str b'K' short (omega arith)
    ∙ sym (parse_len_suffix str b'M' short (omega arith))
