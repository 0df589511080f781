-- ===== src/Main/Startup.antt =====
-- The start-up in `main` of src/firmware/main.c, up to the loop, and the turns that the two cores take
-- from then on.
pub mod Reached
mod Tests
use msx_pulse.Shared.{ℕ, replicate, ◌≡◌, true, false, pos, some, List, [], ◌∷◌, ◌++◌}
use msx_pulse.BusProbe.{Snapshot, LineState, active, running, ctrl_count}
use msx_pulse.BootDetect.{BootDetect}
use msx_pulse.BusIntegrity.{BusIntegrity}
use msx_pulse.BootCapture
use msx_pulse.BootCapture.{fresh}
use msx_pulse.TxnCapture
use msx_pulse.TxnCapture.Arming as TxnArming
use msx_pulse.BootDiag.{Diag, DiagResult, idle, core1_drain_step}
use msx_pulse.Ui
use msx_pulse.Ui.{Ui, main, no_view, btn_none, btn_up, btn_down}
use msx_pulse.Buttons
use msx_pulse.Buttons.{Btn, Buttons, set_combo}
use msx_pulse.UsbSerial.Ring.{Line, Ring}
use msx_pulse.AdcRails
use msx_pulse.AdcRails.Volts.{Floats}
use msx_pulse.Hardware.{
  HwCall, gpio_init, gpio_put, gpio_set_dir, gpio_pull_up, gpio_set_function, pwm, i2c,
}
use msx_pulse.MsxRuntime
use msx_pulse.MsxRuntime.{passive_init}
use msx_pulse.Oled.{fb_clear}
use msx_pulse.Console.{disp_monitoring}
use msx_pulse.Console.Lines.{RailSnapshot}
use msx_pulse.Main.Loop.{Core0, Input, loop_round}

-- The statics before anything has run: zero, unless they are initialised.
abbrev zero_btn : Btn
zero_btn = record {
  last_change_ms = 0;
  press_start_ms = 0;
  stable = false;
  prev_raw = false;
  held_reported = false;
  pending_short = false;
  armed = false;
  hold_fired = false;
}

abbrev zero_buttons : Buttons
zero_buttons = record {
  up = zero_btn;
  down = zero_btn;
  sel = zero_btn;
  combo = record {
    a = btn_none;
    b = btn_none;
    combo_hold_ms = 0;
    both_pressed_since_ms = 0;
    intent_active = false;
    fired = false;
    consumed = false;
  };
}

abbrev zero_ui : Ui
zero_ui = record {
  level = main;
  page_idx = 0;
  selector_idx = 0;
  power_fault = false;
  n_pages = 0;
  diag_view = no_view;
  diag_page = 0;
}

abbrev zero_detect : BootDetect
zero_detect = record {
  phase_flags = 0;
  early_ppi_writes = false;
  basic_workarea_init = false;
  header_read = false;
  header_4000 = 0;
  header_4001 = 0;
  last_confirmed = pos 0;
  first_missing = pos 0;
}

abbrev zero_integrity : BusIntegrity
zero_integrity = record {
  data_seen_hi = 0;
  data_seen_lo = 0;
  addr_seen_hi = 0;
  addr_seen_lo = 0;
  n_reads = 0;
  n_allzero = 0;
  n_allone = 0;
  cp_checked = 0;
  cp_failed = 0;
}

abbrev zero_result : DiagResult
zero_result = record {
  anomaly_flags = 0;
  stuck_data_hi = 0;
  stuck_data_lo = 0;
  stuck_addr_mask = 0;
  bus_undriven = false;
  cp_checked = 0;
  cp_failed = 0;
  n_reads = 0;
  phase_flags = 0;
  last_confirmed = pos 0;
  first_missing = pos 0;
  early_ppi_writes = false;
  basic_workarea_init = false;
  passes_run = 0;
}

abbrev zero_diag : Diag
zero_diag = record {
  capture_active = false;
  inited = false;
  request = false;
  phase = idle;
  pass = 0;
  deadline_ms = 0;
  anom_accum = 0;
  result = zero_result;
  bi = zero_integrity;
  detect = zero_detect;
  capture = record {
    armed = false;
    mem = fresh;
    io = fresh;
    alog_rd = 0;
    late_drains = 0;
    max_gap_us = 0;
    last_drain_us = 0;
  };
  txn = record { armed = false; cursor = fresh };
}

abbrev zero_ring : Ring
zero_ring = record { lines = λ i. []; write_idx = 0; read_idx = 0 }

abbrev zero_snapshot : Snapshot
zero_snapshot = record {
  addr = replicate 16 active;
  data_lines = replicate 8 active;
  ctrl = replicate ctrl_count active;
  clk_hz = 0;
  reset = running;
  timestamp_ms = 0;
}

-- Line by line what `main` sets up on the pins: the LED, the bus of the display, the bus of the MSX,
-- the clock input of the counter, and the three buttons.
abbrev input_pull_up : ℕ → List HwCall
input_pull_up pin = gpio_init pin ∷ gpio_set_dir pin false ∷ gpio_pull_up pin ∷ []

unfoldable pub start_calls : List HwCall
unfolding passive_init
start_calls =
    gpio_init 38
    ∷ gpio_set_dir 38 true
    ∷ gpio_put 38 1
    ∷ gpio_set_function 36 i2c
    ∷ gpio_set_function 37 i2c
    ∷ gpio_pull_up 36
    ∷ gpio_pull_up 37
    ∷ (passive_init
        ++ (gpio_set_function 31 pwm
            ∷ (input_pull_up 39 ++ (input_pull_up 43 ++ input_pull_up 44))))

module _ {V : Type 0} (fixed : (width precision : ℕ) → V → List ℕ) (floats : Floats V) where
  -- The state at the first round of the loop: `raw` is the first reading of the converter,
  -- and `lut_base` the address of the lookup table.
  pub start_up : (raw lut_base : ℕ) → Core0 fixed floats
  start_up raw lut_base = record {
    world = record {
      out = zero_ring;
      diag = zero_diag;
      display = disp_monitoring;
      runtime = MsxRuntime.power_up lut_base;
      in_bootloader = false;
    };
    txn = TxnArming.unclaimed;
    task = record { was_connected = false; accum = [] };
    cmd = zero_ring;
    ui = Ui.init zero_ui;
    buttons = set_combo btn_up btn_down 500 (Buttons.init zero_buttons);
    adc = AdcRails.sample raw AdcRails.init;
    rail_snap = record {
      v5 = floats.literal 0 1;
      v12 = floats.literal 0 1;
      vm12 = floats.literal 0 1;
      statuses = record { status_5v = 0; status_12v = 0; status_m12v = 0 };
    };
    fault_count = 0;
    last_rail_ms = 0;
    last_btn_ms = 0;
    last_oled_ms = 0;
    probe = zero_snapshot;
    fb = fb_clear;
  }

  -- What may happen next: Core 0 goes through its loop once, or Core 1 drains, which it does only
  -- while the capture is active. After UPDATE the firmware does not come back.
  pub data Turn (s : Core0 fixed floats) : Core0 fixed floats → Type 0 where
    core0 :
        (i : Input fixed floats) (r : Core0 fixed floats × List Line × List HwCall)
        → s.world.in_bootloader ≡ false
        → loop_round fixed floats i s ≡ some r
        → Turn s r.0
    core1 :
        (i : BootCapture.Inputs) (ring : ℕ → ℕ) (waddr base : ℕ) (d : Diag)
        → s.world.diag.capture_active ≡ true
        → core1_drain_step i ring waddr base s.world.diag ≡ some d
        → Turn s (record s { world = record s.world { diag = d } })

  pub data Turns (s : Core0 fixed floats) : Core0 fixed floats → Type 0 where
    here : Turns s s
    then_turn : {mid last : Core0 fixed floats} → Turns s mid → Turn mid last → Turns s last
