-- ===== src/AdcRails.antt =====
-- src/firmware/adc_rails.h and adc_rails.c: the running averages of the three rails, which are
-- integers. The voltages computed from them are floating-point numbers, in Volts.
pub mod Settling
pub mod Volts
mod Tests
use msx_pulse.Shared.{ℕ, zero, suc, ◌+◌, ◌*◌, ◌/◌, ◌%◌, ◌^◌, ◌==◌, if◌then◌else◌}

-- `avg[0]` to `avg[2]`, and `current_rail`.
pub record Adc : Type 0 where
  pub avg_5v : ℕ
  pub avg_12v : ℕ
  pub avg_m12v : ℕ
  pub current_rail : ℕ

pub init : Adc
init = record { avg_5v = 0; avg_12v = 0; avg_m12v = 0; current_rail = 0 }

-- `(avg * 63 + raw) / 64` in words of 32 bits.
unfoldable pub smooth : (avg raw : ℕ) → ℕ
smooth avg raw = (avg * 63 + raw) % 2 ^ 32 / 64

-- `raw` is what `adc_read` returns for the rail that is selected.
unfoldable pub sample : (raw : ℕ) → Adc → Adc
unfolding smooth
sample raw a = record {
  avg_5v = if a.current_rail == 0 then smooth a.avg_5v raw else a.avg_5v;
  avg_12v = if a.current_rail == 1 then smooth a.avg_12v raw else a.avg_12v;
  avg_m12v = if a.current_rail == 2 then smooth a.avg_m12v raw else a.avg_m12v;
  current_rail = (a.current_rail + 1) % 3;
}
