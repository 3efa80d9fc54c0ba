-- ===== src/Mbr/Validate/Total.antt =====
-- The sum of the sizes of the partitions in editdisklbl/diskconfig.c `validate`.
use platform_bootable_iago.Base.{
  ℕ, ◌+◌, ◌*◌, ◌^◌, ◌<◌, ◌≡◌, refl, sym, ◌∙◌, ap, ◌⊎◌, arith, true, false, not, ◌&&◌, Bool-cases,
  inl, inr, List, [], ◌∷◌, All, Option, none, some, ◌==◌, ==_iff, if◌then◌else◌, length, u32, u64,
}
use mathlib.Core.Option.{none-ne-some}
use platform_bootable_iago.Mbr.{PartInfo, fill, is_some, head_part}
use platform_bootable_iago.Mbr.Validate.{add_part, linux, fat32, total_size}

abbrev pub IsKnown : PartInfo → Type 0
IsKnown p = (p.type ≡ linux) ⊎ (p.type ≡ fat32)

-- Only the last partition fills the disk.
abbrev pub FillsLast : List PartInfo → Type 0
FillsLast [] = Unit {0}
FillsLast (p ∷ ps) = (p.len_kb ≡ fill → length ps ≡ 0) × FillsLast ps

-- The bytes that a partition asks for.
abbrev pub need : PartInfo → ℕ
need p = if p.len_kb == fill then 0 else p.len_kb * 1024

abbrev pub needs : List PartInfo → ℕ
needs [] = 0
needs (p ∷ ps) = need p + needs ps

-- A partition of less than 4 GiB, or one that fills the disk.
abbrev pub IsSmall : PartInfo → Type 0
IsSmall p = need p < 2 ^ 32

pub known_types :
    (p : PartInfo) → IsKnown p → (not (p.type == linux) && not (p.type == fat32)) ≡ false
known_types p h = grind arith

unknown_types :
    (p : PartInfo) → (not (p.type == linux) && not (p.type == fat32)) ≡ false → IsKnown p
unknown_types p h = ground arith

need-fill : (p : PartInfo) → (p.len_kb == fill) ≡ true → need p ≡ 0
need-fill p e = rw e refl

pub need-sized : (p : PartInfo) → (p.len_kb == fill) ≡ false → need p ≡ p.len_kb * 1024
need-sized p e = rw e refl

not_zero : (n : ℕ) → (n == fill) ≡ true → (n == 0) ≡ false
not_zero n e = ground arith

pub add_part-sized :
    (p : PartInfo) (ps : List PartInfo) (total : ℕ)
    → (p.len_kb == fill) ≡ false
    → add_part p total ps ≡ some (u64 (total + u32 (p.len_kb * 1024)))
unfolding add_part
add_part-sized p ps total e = rw (e, add_part) refl

add_part-fill :
    (p : PartInfo) (ps : List PartInfo) (total : ℕ)
    → (p.len_kb == fill) ≡ true
    → add_part p total ps ≡ (if is_some (head_part ps) then none else some total)
unfolding add_part
add_part-fill p ps total e = rw (e, not_zero p.len_kb e, add_part) refl

nothing_behind : (ps : List PartInfo) → length ps ≡ 0 → is_some (head_part ps) ≡ false
nothing_behind [] e = refl
nothing_behind (q ∷ qs) e = absurd (omega arith)

behind_nothing : (ps : List PartInfo) → is_some (head_part ps) ≡ false → length ps ≡ 0
behind_nothing [] e = refl
behind_nothing (q ∷ qs) e = ground arith

add_part-some :
    (p : PartInfo) (ps : List PartInfo) (total : ℕ)
    → (p.len_kb ≡ fill → length ps ≡ 0)
    → IsSmall p
    → total + need p < 2 ^ 64
    → add_part p total ps ≡ some (total + need p)
add_part-some p ps total last small fits = elim (Bool-cases (p.len_kb == fill)) [
  | inl e ↦
      let none_left = nothing_behind ps (last ((==_iff p.len_kb fill).0 e)) in
      add_part-fill p ps total e ∙ rw (none_left, need-fill p e) (ap some (omega arith))
  | inr e ↦ let n = need-sized p e in add_part-sized p ps total e ∙ ap some (omega (arith, n))
]

pub total_size-some :
    (ps : List PartInfo) (total : ℕ)
    → All IsKnown ps
    → FillsLast ps
    → All IsSmall ps
    → total + needs ps < 2 ^ 64
    → total_size ps total ≡ some (total + needs ps)
unfolding total_size
total_size-some [] total known last small fits = ap some (omega arith)
total_size-some (p ∷ ps) total known last small fits =
    rw (add_part-some p ps total last.0 small.0 (omega arith), known_types p known.0, total_size)
      (total_size-some ps (total + need p) known.1 last.1 small.1 (omega arith)
        ∙ ap some (omega arith))

-- What `total_size` is after the first partition.
abbrev pub after : PartInfo → List PartInfo → Option ℕ → Option ℕ
after p ps none = none
after p ps (some next) =
    if not (p.type == linux) && not (p.type == fat32) then none else total_size ps next

pub total_size-after :
    (p : PartInfo) (ps : List PartInfo) (total : ℕ)
    → total_size (p ∷ ps) total ≡ after p ps (add_part p total ps)
unfolding total_size
total_size-after p ps total = go (add_part p total ps)
  where
    go :
        (r : Option ℕ)
        → elim r as (λ x. Option ℕ) [
          | none ↦ none
          | some next ↦
              if not (p.type == linux) && not (p.type == fat32) then none else total_size ps next
        ]
          ≡ after p ps r
    go none = refl
    go (some next) = refl

after-some :
    (p : PartInfo) (ps : List PartInfo) (r : Option ℕ) (t : ℕ)
    → after p ps r ≡ some t
    → (next : ℕ) × (r ≡ some next) × IsKnown p × (total_size ps next ≡ some t)
after-some p ps none t e = absurd (none-ne-some t e)
after-some p ps (some next) t e =
    elim (Bool-cases (not (p.type == linux) && not (p.type == fat32))) [
      | inl bad ↦ absurd (none-ne-some t (rw bad at e))
      | inr good ↦ (next, refl, unknown_types p good, rw good at e)
    ]

add_part-last :
    (p : PartInfo) (ps : List PartInfo) (total next : ℕ)
    → add_part p total ps ≡ some next
    → p.len_kb ≡ fill
    → length ps ≡ 0
add_part-last p ps total next e full =
    let e' = sym (add_part-fill p ps total ((==_iff p.len_kb fill).1 full)) ∙ e in
    elim (Bool-cases (is_some (head_part ps))) [
      | inl more ↦ absurd (none-ne-some next (rw more at e'))
      | inr done ↦ behind_nothing ps done
    ]

pub total_size-Good :
    (ps : List PartInfo) (total t : ℕ)
    → total_size ps total ≡ some t
    → All IsKnown ps × FillsLast ps
total_size-Good [] total t e = (tt, tt)
total_size-Good (p ∷ ps) total t e =
    let (next, added, known, rest) =
      after-some p ps (add_part p total ps) t (sym (total_size-after p ps total) ∙ e) in
    let (knowns, lasts) = total_size-Good ps next t rest in
    ((known, knowns), (add_part-last p ps total next added, lasts))
