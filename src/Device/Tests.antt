-- ===== src/Device/Tests.antt =====
-- The model of libgpt/gpt.c `robust_read` and `robust_write` on short runs.
use platform_bootable_iago.Base.{
  ℕ, ◌+◌, ◌-◌, refl, splice, overwrite, arith, List, [], ◌∷◌, ◌++◌, ◌≡◌, true, false, length, take,
  slice,
}
use platform_bootable_iago.Device.{
  Outcome, upto, eintr, error, ok, err, hang, eio, success, failure, overrun, robust_read,
  robust_write,
}
use platform_bootable_iago.Device.Laws.{Calm, robust_read_complete, robust_write_short}

abbrev four : List ℕ
four = 1 ∷ 2 ∷ 3 ∷ 4 ∷ []

abbrev zeros : List ℕ
zeros = 0 ∷ 0 ∷ 0 ∷ 0 ∷ 0 ∷ []

reads :
    (robust_read (upto 1 ∷ eintr ∷ []) four 3 false [] ≡ (ok (1 ∷ 2 ∷ 3 ∷ []), []))
    × (robust_read (upto 1 ∷ []) four 3 true [] ≡ (ok (1 ∷ []), []))
    × (robust_read [] four 5 false [] ≡ (hang, []))
    × (robust_read (error ∷ []) four 5 false [] ≡ (err eio, []))
unfolding robust_read
reads = (refl, refl, refl, refl)

writes :
    (robust_write [] zeros 1 four 4 ≡ (success, 0 ∷ four, []))
    × (robust_write (upto 1 ∷ []) zeros 1 four 4 ≡ (success, 0 ∷ 1 ∷ 1 ∷ 2 ∷ 3 ∷ [], []))
    × (robust_write (eintr ∷ []) zeros 1 four 4 ≡ (overrun, zeros, []))
    × (robust_write [] zeros 3 four 4 ≡ (failure, 0 ∷ 0 ∷ 0 ∷ 1 ∷ 2 ∷ [], []))
unfolding robust_write splice overwrite
writes = (refl, refl, refl, refl)

robust_read_complete_example :
    (t : List Outcome) × (robust_read (upto 1 ∷ eintr ∷ []) four 3 false []
      ≡ (ok ([] ++ take 3 four), t))
    × Calm t
robust_read_complete_example = robust_read_complete (upto 1 ∷ eintr ∷ []) four 3 [] tt (omega arith)

robust_write_short_example :
    let (st, dev', t) = robust_write (upto 1 ∷ []) zeros 0 four 4 in
    (st ≡ success)
    × (slice 0 1 dev' ≡ take 1 four)
    × (slice (0 + 1) (length four - 1) dev' ≡ take (length four - 1) four)
robust_write_short_example =
    robust_write_short zeros four 0 1 (omega arith) (omega arith) (omega arith)
