-- ===== src/Ui/Tests.antt =====
-- A walk through the menu.
use msx_pulse.Shared.{
  ℕ, ◌≡◌, refl, true, false, List, [], ◌∷◌, ◌++◌, arith, pos, some, Text, codes, take, decimal,
}
use msx_pulse.BusProbe.{Snapshot, running}
use msx_pulse.BusIntegrity
use msx_pulse.BootDetect
use msx_pulse.BootCapture
use msx_pulse.TxnCapture
use msx_pulse.BootDiag.{Diag, DiagResult, pass_begin, tick, reached, round_should_stop}
use msx_pulse.BootDiag.Invariant.{IsValid}
use msx_pulse.BootDiag.Progress
use msx_pulse.Oled.{fb_clear}
use msx_pulse.Oled.Text.{cell}
use msx_pulse.Console.Lines.{RailSnapshot}
use msx_pulse.Ui.{
  btn_up, btn_down, btn_select, Ui, main, settings, no_view, progress, results, init, handle_btn,
  on_settings, on_pages, notify_power_fault, render,
}
use msx_pulse.Ui.Menu.{Event, button, power, apply, apply_all, IsUi, menu_lem}
use msx_pulse.Ui.Results.{Happening, ticks, refresh, dues, due, happen, shown, results_lem}
use msx_pulse.Ui.Wrap.{Drawn, wrap_rows, drawn_first, wrap_rows_lem}
use msx_pulse.Ui.Render.{ui_render, footer_lem}
use msx_pulse.Ui.Diag.{footer}

abbrev cold : Ui
cold = record {
  level = main;
  page_idx = 0;
  selector_idx = 0;
  power_fault = false;
  n_pages = 0;
  diag_view = no_view;
  diag_page = 0;
}

-- Two pages on, back, into the settings, up to the first row.
abbrev walk : List Event
walk =
    button btn_down
    ∷ button btn_down
    ∷ power true
    ∷ button btn_up
    ∷ button btn_up
    ∷ button btn_select
    ∷ button btn_up
    ∷ []

walk_verdict :
    let u = apply_all walk (init cold) in
    (u.level ≡ settings) × (u.selector_idx ≡ 0) × (u.page_idx ≡ 0) × (u.power_fault ≡ true)
unfolding apply_all apply init handle_btn on_settings on_pages notify_power_fault
walk_verdict = (refl, refl, refl, refl)

menu_example : IsUi (apply_all walk (init cold))
menu_example = menu_lem cold walk (omega arith)

abbrev two_findings : Text
two_findings = codes "bus not driven - BIOS ROM / /CS\nopcode mismatch\n"

wrapped :
    wrap_rows two_findings 1
    ≡ some (
        (1, codes "bus not driven - BIOS")
        ∷ (2, codes "ROM / /CS")
        ∷ (3, codes "opcode mismatch")
        ∷ [])
unfolding wrap_rows drawn_first codes take
wrapped = refl

wrap_rows_example : Drawn 1 (wrap_rows two_findings 1)
wrap_rows_example = wrap_rows_lem two_findings 1

abbrev no_result : DiagResult
no_result = record {
  anomaly_flags = 0;
  stuck_data_hi = 0;
  stuck_data_lo = 0;
  stuck_addr_mask = 0;
  bus_undriven = false;
  cp_checked = 0;
  cp_failed = 0;
  n_reads = 0;
  phase_flags = 0;
  last_confirmed = pos 0;
  first_missing = pos 0;
  early_ppi_writes = false;
  basic_workarea_init = false;
  passes_run = 0;
}

-- The first pass of a round is about to begin.
abbrev begun : Diag
begun = record {
  capture_active = false;
  inited = true;
  request = false;
  phase = pass_begin;
  pass = 0;
  deadline_ms = 0;
  anom_accum = 0;
  result = no_result;
  bi = BusIntegrity.reset;
  detect = BootDetect.reset;
  capture = BootCapture.init;
  txn = TxnCapture.init;
}

begun-IsValid : IsValid begun
begun-IsValid = record {
  draining = refl;
  few_passes = λ _. omega arith;
  frozen = λ p. cc;
  finished = λ p. cc;
}

-- A bus with no clock.
abbrev quiet_bus : Snapshot
quiet_bus = record {
  addr = [];
  data_lines = [];
  ctrl = [];
  clk_hz = 0;
  reset = running;
  timestamp_ms = 0;
}

abbrev watching : Ui
watching = record cold { diag_view = progress }

-- Three passes, each with its window and its pause.
abbrev three_passes : List Happening
three_passes =
    ticks 0 quiet_bus
    ∷ ticks 8000 quiet_bus
    ∷ ticks 8060 quiet_bus
    ∷ ticks 8061 quiet_bus
    ∷ ticks 16061 quiet_bus
    ∷ ticks 16121 quiet_bus
    ∷ ticks 16122 quiet_bus
    ∷ ticks 24122 quiet_bus
    ∷ ticks 24182 quiet_bus
    ∷ []

three_passes_due : dues three_passes (begun, watching) ≡ 9
unfolding dues due happen Progress.is_due Progress.apply tick reached round_should_stop
    BootDetect.reset
three_passes_due = refl

results_example : shown (three_passes ++ (refresh ∷ [])) (begun, watching) ≡ true
results_example =
    results_lem three_passes begun watching begun-IsValid refl refl refl
      (omega (arith, three_passes_due))

abbrev rails : RailSnapshot ℕ
rails = record {
  v5 = 5;
  v12 = 12;
  vm12 = 12;
  statuses = record { status_5v = 0; status_12v = 0; status_m12v = 0 };
}

abbrev whole_volts : (width precision : ℕ) → ℕ → Text
whole_volts w p v = decimal v

abbrev at_causes : Ui
at_causes = record cold { diag_view = results; diag_page = 5 }

stays_results : (render begun.phase at_causes).diag_view ≡ results
unfolding render
stays_results = refl

footer_example :
    (ui_render whole_volts 700 rails quiet_bus begun at_causes fb_clear).1 7 3 ≡ cell footer 0 3
footer_example =
    footer_lem whole_volts 700 rails quiet_bus begun at_causes fb_clear 3 stays_results
      (omega arith)
