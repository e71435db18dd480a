-- ===== src/Timer.antt =====
-- KERNEL/SOURCE/timer/timer.c and 8254.c: the divider of the timer and the frequency of the
-- processor's time stamps.
pub mod Rounding
mod Tests
use strawberry_os.Prelude.{
  ℕ, zero, suc, ◌+◌, ◌-◌, ◌*◌, ◌/◌, ◌%◌, ◌^◌, Bool, Option, none, some, List, [], ◌∷◌, ltb, leb,
  if◌then◌else◌, u32, u64, mul64, sub64, add64,
}

-- `TIMER_INT_FREQUENCY` and `PIT_FREQUENCY`
abbrev pub timer_int_frequency : ℕ
timer_int_frequency = 20

abbrev pub pit_frequency : ℕ
pit_frequency = 1193180

-- A byte that is written to a port.
pub record PortWrite : Type 0 where
  pub port : ℕ
  pub value : ℕ

-- The ports of `setup_8254`, in order: the command, and the divider, the low byte first.
unfoldable pub setup_8254 : ℕ → List PortWrite
setup_8254 rate =
    let divider = pit_frequency / rate in
    record { port = 0x43; value = 0x36 }
    ∷ record { port = 0x40; value = divider % 256 }
    ∷ record { port = 0x40; value = divider / 256 % 256 }
    ∷ []

-- The loop of `setup_timer` that rounds `TSC_FREQUENCY_KHZ`, and its multiplication by `shift`.
unfoldable pub settle_frequency : ℕ → ℕ → ℕ → Option ℕ
settle_frequency zero khz shift = none
settle_frequency (suc fuel) khz shift =
    let rest = settle_frequency fuel (u64 (khz + 1) / 10) (mul64 shift 10) in
    if leb 99 khz then rest else some (mul64 khz shift)

-- `TSC_FREQUENCY_KHZ`, from the time stamps at both ends of the measurement.
unfoldable pub measured_khz : ℕ → ℕ → ℕ → Option ℕ
measured_khz fuel start end = settle_frequency fuel (sub64 end start / 1000) 1

-- `TimestampCPU`, in milliseconds.
unfoldable pub timestamp_cpu : ℕ → ℕ → ℕ
timestamp_cpu tsc khz = tsc / khz

-- `delay`: the time stamp at which it stops, and whether it still halts between the interrupts.
unfoldable pub delay_stop : ℕ → ℕ → ℕ → ℕ
delay_stop now khz ms = add64 now (mul64 khz ms)

unfoldable pub delay_halts : ℕ → ℕ → ℕ → Bool
delay_halts stop now khz = leb (1000 / timer_int_frequency) (sub64 stop now / khz)
