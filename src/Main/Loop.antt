-- ===== src/Main/Loop.antt =====
-- One round of the loop of Core 0 in src/firmware/main.c, and the choice that Core 1 makes.
pub mod Sound
pub mod OldLog
pub mod OldResults
pub mod Requests
use msx_pulse.Shared.{
  ℕ, ◌+◌, ◌^◌, ◌%◌, Bool, true, false, not, ◌&&◌, ◌||◌, leb, if◌then◌else◌, sub32, ℤ, Option, none,
  some, List, [], ◌∷◌, ◌++◌,
}
use msx_pulse.BusProbe.{Snapshot}
use msx_pulse.BootDetect
use msx_pulse.BootCapture
use msx_pulse.BootCapture.Arming
use msx_pulse.TxnCapture.Arming as TxnArming
use msx_pulse.BootDiag
use msx_pulse.BootDiag.{Diag, Call, tick, start}
use msx_pulse.Ui.{Ui, BtnEvent, handle_btn}
use msx_pulse.Ui.Render.{oled_refresh}
use msx_pulse.Oled.{Framebuffer}
use msx_pulse.Buttons.{Buttons, Levels, poll, combo_check, is_none}
use msx_pulse.UsbSerial.Ring.{Line, Ring, get_cmd, cmd_line_len}
use msx_pulse.UsbSerial.Task.{Task, task}
use msx_pulse.UsbSerial.Command.{parse_cmd}
use msx_pulse.AdcRails
use msx_pulse.AdcRails.{Adc}
use msx_pulse.AdcRails.Volts.{Floats, snapshot}
use msx_pulse.Hardware.{HwCall}
use msx_pulse.Alog
use msx_pulse.MsxRuntime.{Runtime, pulse_reset, pulse_reset_passive}
use msx_pulse.Console.{World, Display, disp_monitoring, disp_msx_health, Reads, cmd_dispatch}
use msx_pulse.Console.Lines.{RailSnapshot}
use msx_pulse.Main.{poll_rails}

-- What the SDK returns for the programs and the channels of a first round.
pub record Claimed : Type 0 where
  pub log_offset : ℕ
  pub log_ch : ℤ
  pub mem_offset : ℕ
  pub io_offset : ℕ
  pub mem_ch : ℤ
  pub io_ch : ℤ
  pub txn_offset : ℕ
  pub txn_ch : ℤ

-- What the calls of `boot_diag_tick` do to the hardware.
abbrev carry_out :
    Claimed → Call → Runtime × TxnArming.Arming → (Runtime × TxnArming.Arming) × List HwCall
carry_out k BootDiag.alog_init (r, t) =
    let logged = Alog.alog_init k.log_offset k.log_ch in
    ((record r { alog = logged.0 }, t), logged.1)
carry_out k BootDiag.capture_init (r, t) =
    let armed = Arming.init_calls k.mem_offset k.io_offset k.mem_ch k.io_ch in
    ((record r { capture = armed.0 }, t), armed.1)
carry_out k BootDiag.txn_init (r, t) =
    let armed = TxnArming.init_calls k.txn_offset k.txn_ch in ((r, armed.0), armed.1)
carry_out k BootDiag.capture_reset (r, t) = ((r, t), Arming.reset_calls r.capture)
carry_out k BootDiag.txn_reset (r, t) = ((r, t), TxnArming.reset_calls t)
carry_out k BootDiag.pulse_reset (r, t) = ((r, t), pulse_reset_passive)
carry_out k BootDiag.capture_stop (r, t) = ((r, t), Arming.stop_calls r.capture)
carry_out k BootDiag.txn_stop (r, t) = ((r, t), TxnArming.stop_calls t)

unfoldable pub carry_out_all :
    Claimed → List Call → Runtime × TxnArming.Arming → (Runtime × TxnArming.Arming) × List HwCall
carry_out_all k [] s = (s, [])
carry_out_all k (c ∷ cs) s =
    let first = carry_out k c s in
    let rest = carry_out_all k cs first.0 in (rest.0, first.1 ++ rest.1)

abbrev pub shows_health : Display → Bool
shows_health disp_msx_health = true
shows_health _ = false

-- `msx_reset_pulse`
unfoldable pub msx_reset_pulse : World → World × List HwCall
msx_reset_pulse w = (
  if w.runtime.detect
      then record w {
        diag = record w.diag {
          detect = BootDetect.reset;
          capture = BootCapture.reset w.diag.capture;
        };
      }
      else w,
  pulse_reset w.runtime,
)

module _ {V : Type 0} (fixed : (width precision : ℕ) → V → List ℕ) (floats : Floats V) where
  -- The variables of the loop, with the statics of the modules that it calls.
  pub record Core0 : Type 0 where
    pub world : World
    pub txn : TxnArming.Arming
    pub task : Task
    pub cmd : Ring
    pub ui : Ui
    pub buttons : Buttons
    pub adc : Adc
    pub rail_snap : RailSnapshot V
    pub fault_count : ℕ
    pub last_rail_ms : ℕ
    pub last_btn_ms : ℕ
    pub last_oled_ms : ℕ
    pub probe : Snapshot
    pub fb : Framebuffer

  -- What a round reads: the clock, the USB stack, the snapshot of Core 1, the converter, the
  -- buttons with their clock, what a command reads, and
  -- the clock of the display.
  pub record Input : Type 0 where
    pub now_ms : ℕ
    pub connected : Bool
    pub up : ℕ → Bool
    pub chars : List ℕ
    pub snap : Snapshot
    pub claimed : Claimed
    pub raw : ℕ
    pub btn_now_ms : ℕ
    pub levels : Levels
    pub reads : Reads fixed
    pub oled_present : Bool
    pub oled_now_ms : ℕ

  unfoldable pub step_serial : Input → Core0 → Option (Core0 × List Line)
  step_serial i s = elim (task i.connected i.up i.chars s.task s.world.out s.cmd) [
    | none ↦ none
    | some (banner, sent, task', out, cmd) ↦
        some (record s { task = task'; world = record s.world { out = out }; cmd = cmd }, sent)
  ]

  unfoldable pub step_diag : Input → Core0 → Core0 × List HwCall
  step_diag i s =
      let ticked = tick i.now_ms i.snap s.world.diag in
      let carried = carry_out_all i.claimed ticked.1 (s.world.runtime, s.txn) in
      (
        record s {
          world = record s.world { diag = ticked.0; runtime = carried.0.0 };
          txn = carried.0.1;
          adc = AdcRails.sample i.raw s.adc;
        },
        carried.1,
      )

  unfoldable pub step_rails : Input → Core0 → Core0
  step_rails i s =
      let new_rails = snapshot floats s.adc in
      let polled = poll_rails new_rails.statuses (s.fault_count, s.ui) in
      if leb 500 (sub32 i.now_ms s.last_rail_ms)
      then record s {
        last_rail_ms = i.now_ms;
        rail_snap = new_rails;
        fault_count = polled.0;
        ui = polled.1;
      }
      else s

  -- A button goes to the menu, unless it leaves the health page.
  abbrev pub press : BtnEvent → Core0 → Core0
  press btn s =
      let handled = handle_btn btn s.ui in
      if not (is_none btn) && shows_health s.world.display
      then record s { world = record s.world { display = disp_monitoring } }
      else record s {
        ui = handled.0;
        world = record s.world { diag = if handled.1 then start s.world.diag else s.world.diag };
      }

  unfoldable pub step_buttons : Input → Core0 → Core0 × List HwCall
  step_buttons i s =
      let polled = poll i.btn_now_ms i.levels s.buttons in
      let pressed = press polled.1 s in
      let checked = combo_check polled.0 in
      let pulsed = msx_reset_pulse pressed.world in
      let polled_at = record pressed { last_btn_ms = i.now_ms; buttons = checked.0 } in
      if leb 1 (sub32 i.now_ms s.last_btn_ms)
      then (if checked.1
          then (record polled_at { world = pulsed.0 }, pulsed.1)
          else (polled_at, []))
      else (s, [])

  abbrev pub command : Option (Line × Ring) → Input → Core0 → Core0 × List HwCall
  command none i s = (s, [])
  command (some (line, cmd)) i s =
      let dispatched =
        cmd_dispatch fixed (parse_cmd line) (record i.reads { rail_snap = s.rail_snap }) s.world in
      (record s { cmd = cmd; world = dispatched.0 }, dispatched.1)

  unfoldable pub step_command : Input → Core0 → Core0 × List HwCall
  step_command i s = command (get_cmd cmd_line_len s.cmd) i s

  unfoldable pub step_oled : Input → Core0 → Core0
  step_oled i s =
      let drawn =
        oled_refresh fixed i.oled_present s.world.display i.oled_now_ms s.rail_snap i.snap
          s.world.diag s.ui s.fb in
      if leb 100 (sub32 i.now_ms s.last_oled_ms)
      then record s { last_oled_ms = i.now_ms; probe = i.snap; ui = drawn.0; fb = drawn.1 }
      else s

  -- What follows the serial task. A round in which UPDATE is obeyed does not come to the display.
  unfoldable pub after_serial : Input → Core0 × List Line → Core0 × List Line × List HwCall
  unfolding step_diag step_rails step_buttons step_command step_oled
  after_serial i (s, sent) =
      let ticked = step_diag i s in
      let pressed = step_buttons i (step_rails i ticked.0) in
      let commanded = step_command i pressed.0 in
      (
        if commanded.0.world.in_bootloader then commanded.0 else step_oled i commanded.0,
        sent,
        ticked.1 ++ (pressed.1 ++ commanded.1),
      )

  -- The body of `for (;;)`: the new state, the lines sent, and the calls.
  unfoldable pub loop_round : Input → Core0 → Option (Core0 × List Line × List HwCall)
  unfolding step_serial after_serial
  loop_round i s = elim (step_serial i s) [
    | none ↦ none
    | some served ↦ some (after_serial i served)
  ]

-- A round of `core1_dashboard_loop`: Core 1 drains the rings or samples the pins. `drained` and
-- `sampled` are the results of `boot_diag_core1_drain_step` and `bus_probe_sample_once`.
unfoldable pub core1_round :
    (drained : Diag → Option Diag) (sampled : Option Snapshot)
    → Diag × Snapshot
    → Option (Diag × Snapshot)
core1_round drained sampled (d, snap) =
    let drain : Option (Diag × Snapshot) = elim (drained d) [
      | none ↦ none
      | some e ↦ some (e, snap)
    ] in
    let sample : Option (Diag × Snapshot) = elim sampled [ none ↦ none | some t ↦ some (d, t) ] in
    if d.capture_active then drain else sample
