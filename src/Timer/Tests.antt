-- ===== src/Timer/Tests.antt =====
-- Runs of KERNEL/SOURCE/timer/timer.c and 8254.c.
use strawberry_os.Prelude.{◌≡◌, ℕ, refl, arith, some, [], ◌∷◌}
use strawberry_os.Timer.{settle_frequency, setup_8254}
use strawberry_os.Timer.Rounding.{settle_frequency-IsRounded, IsRounded}

settle_frequency-IsRounded_example :
    (r : ℕ) × (settle_frequency 4000 3400 1 ≡ some r) × IsRounded 3400 1 r
settle_frequency-IsRounded_example =
    settle_frequency-IsRounded 4000 3400 (omega arith) (omega arith)

settle_3393 : settle_frequency 10 3393 1 ≡ some 3400
unfolding settle_frequency
settle_3393 = refl

setup_20 :
    setup_8254 20
    ≡ record { port = 0x43; value = 0x36 }
      ∷ record { port = 0x40; value = 11 }
      ∷ record { port = 0x40; value = 233 }
      ∷ []
unfolding setup_8254
setup_20 = refl
