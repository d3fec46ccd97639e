-- ===== src/Win32/Ticks.antt =====
-- Timer_TicksToMilliseconds and Timer_TicksToMicroseconds of
-- Engine/src/delta/platform/os_win32.cpp. The arithmetic of `double` is a parameter.
use project_delta.Prelude.{◌+◌, ◌^◌, leb, ◌&&◌, if◌then◌else◌, Option, none, some}
use project_delta.Prelude.Int.{ℤ, pos, pos_part, neg_part, ◌-ℤ◌}
use project_delta.Pal.{Timer}

-- `static_cast<double>` of an int64_t, and the product and the quotient, each rounded.
pub record Doubles : Type 1 where
  pub Double : Type 0
  pub of_int : ℤ → Double
  pub product : Double → Double → Double
  pub quotient : Double → Double → Double

-- `endTicks - startTicks`; an overflow of int64_t is undefined.
unfoldable pub elapsed_ticks : ℤ → ℤ → Option ℤ
elapsed_ticks start_ticks end_ticks =
    let d = end_ticks -ℤ start_ticks in
    if leb (pos_part d + 1) (2 ^ 63) && leb (neg_part d) (2 ^ 63) then some d else none

module _ (doubles : Doubles) where
  open doubles use {Double, of_int, product, quotient}

  -- The scale is 1000.0 or 1000000.0.
  unfoldable pub scaled : ℤ → Timer → Option ℤ → Option Double
  scaled scale timer none = none
  scaled scale timer (some d) =
      some (quotient (product (of_int d) (of_int scale)) (of_int timer.freq))

  unfoldable pub timer_ticks_to_milliseconds : Timer → ℤ → ℤ → Option Double
  timer_ticks_to_milliseconds timer start_ticks end_ticks =
      scaled (pos 1000) timer (elapsed_ticks start_ticks end_ticks)

  unfoldable pub timer_ticks_to_microseconds : Timer → ℤ → ℤ → Option Double
  timer_ticks_to_microseconds timer start_ticks end_ticks =
      scaled (pos 1000000) timer (elapsed_ticks start_ticks end_ticks)
