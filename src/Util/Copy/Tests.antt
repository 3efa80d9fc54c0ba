-- ===== src/Util/Copy/Tests.antt =====
-- Runs of the model of installer/util.c `__dd`, and its theorems at concrete files.
use platform_bootable_iago.Base.{◌≡◌, arith, true, [], ◌∷◌, ◌++◌, some, codes}
use platform_bootable_iago.Device.{upto, eintr}
use platform_bootable_iago.Util.Copy.{dd_with, file, missing}
use platform_bootable_iago.Util.Copy.Laws.{dd_with-copied}

dd_with-copied_example :
    (dd_with true true
        (upto 2 ∷ [])
        (upto 1 ∷ eintr ∷ [])
        (some (codes "more"))
        (file (codes "ini,"))
      ≡ some (some (codes "ini," ++ codes "more")))
    × (dd_with true true (upto 2 ∷ []) (upto 1 ∷ eintr ∷ []) (some (codes "more")) missing
        ≡ some (some (codes "more")))
dd_with-copied_example =
    dd_with-copied true true (upto 2 ∷ []) (upto 1 ∷ eintr ∷ []) (codes "more") (codes "ini,")
      (omega arith, tt) tt
