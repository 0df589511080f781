-- ===== src/AdcRails/Tests.antt =====
-- Two rounds of steady readings.
use msx_pulse.Shared.{◌+◌, ◌≤◌, ◌≡◌, arith}
use msx_pulse.AdcRails.{init}
use msx_pulse.AdcRails.Settling.{steady, settling_lem}

settling_example :
    let a = steady 1 65 64 63 init in
    let b = steady 2 65 64 63 init in
    ((a.avg_5v + 63 ≤ 65) × (a.avg_12v + 63 ≤ 64) × (a.avg_m12v + 63 ≤ 63))
    × ((b.avg_5v + 63 ≡ 65) × (b.avg_12v + 63 ≡ 64) × (b.avg_m12v + 63 ≡ 63))
settling_example =
    settling_lem 1 2 65 64 63 (omega arith, omega arith, omega arith)
      (omega arith, omega arith, omega arith) (omega arith, omega arith, omega arith)
