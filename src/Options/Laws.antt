-- ===== src/Options/Laws.antt =====
-- Loops over the entries of a string list, installer/util.c `string_list_iterate`.
use platform_bootable_iago.Base.{ℕ, ◌≡◌, refl, List, [], ◌∷◌, Option, none, some}
use platform_bootable_iago.Options.{iterate}
use mathlib.Core.Path.{subst}
use mathlib.Core.Option.{some-injective, none-ne-some}

module _ {S : Type 0} (P : S → Type 0) (cb : List ℕ → S → Option S)
    (step : (e : List ℕ) (s s' : S) → cb e s ≡ some s' → P s → P s') where
  -- What every call of the callback keeps, the loop keeps.
  pub iterate-keeps : (es : List (List ℕ)) (s s' : S) → iterate cb es s ≡ some s' → P s → P s'
  unfolding iterate
  iterate-keeps [] s s' e p = subst P (some-injective s s' e) p
  iterate-keeps (w ∷ ws) s s' e p = after (cb w s) refl e (λ s1. iterate-keeps ws s1 s')
    where
      after :
          (r : Option S)
          → cb w s ≡ r
          → elim r as (λ x. Option S) [ none ↦ none | some s1 ↦ iterate cb ws s1 ] ≡ some s'
          → ((s1 : S) → iterate cb ws s1 ≡ some s' → P s1 → P s')
          → P s'
      after none _ e' rest = absurd (none-ne-some s' e')
      after (some s1) now e' rest = rest s1 e' (step w s s1 now p)
