-- ===== src/Main.antt =====
-- src/firmware/main.c: the debounce of power faults in the main loop, and below it the loops
-- themselves. The statuses come from adc_rails_snapshot; the report goes to the menu of Ui.
pub mod Fault
pub mod Loop
pub mod Startup
mod Tests
use msx_pulse.Shared.{
  ℕ, ◌+◌, Bool, true, false, not, ◌&&◌, ◌||◌, ◌==◌, ◌!=◌, ltb, leb, if◌then◌else◌,
}
use msx_pulse.Ui.{Ui, notify_power_fault}

-- The statuses of `rail_snapshot_t`: 0 OK, 1 WARN, 2 FAIL, 3 ABSENT.
pub record Rails : Type 0 where
  pub status_5v : ℕ
  pub status_12v : ℕ
  pub status_m12v : ℕ

abbrev pub fault_debounce : ℕ
fault_debounce = 4

abbrev pub is_faulty : Rails → Bool
is_faulty r =
    let msx_present = r.status_5v != 3 || r.status_12v != 3 in
    let any_fail = r.status_5v == 2 || r.status_12v == 2 || r.status_m12v == 2 in
    msx_present && any_fail

-- One rail update: the new `fault_count`, and the menu with what it was told.
unfoldable pub poll_rails : Rails → ℕ × Ui → ℕ × Ui
unfolding notify_power_fault
poll_rails r (fault_count, u) =
    let count = if ltb fault_count fault_debounce then fault_count + 1 else fault_count in
    if is_faulty r
    then (count, if leb fault_debounce count then notify_power_fault true u else u)
    else (0, notify_power_fault false u)
