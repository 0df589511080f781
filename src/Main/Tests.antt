-- ===== src/Main/Tests.antt =====
-- Four failing updates.
use msx_pulse.Shared.{◌≡◌, true, false, replicate}
use msx_pulse.Ui.{Ui, main, no_view}
use msx_pulse.Main.{Rails}
use msx_pulse.Main.Fault.{after, faulty_run, power_fault_lem}

abbrev low_12v : Rails
low_12v = record { status_5v = 0; status_12v = 2; status_m12v = 0 }

abbrev at_start : Ui
at_start = record {
  level = main;
  page_idx = 0;
  selector_idx = 0;
  power_fault = false;
  n_pages = 0;
  diag_view = no_view;
  diag_page = 0;
}

power_fault_example : (after at_start (replicate 4 low_12v)).1.power_fault ≡ true
unfolding faulty_run
power_fault_example = power_fault_lem at_start (replicate 4 low_12v)
