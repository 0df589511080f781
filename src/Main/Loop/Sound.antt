-- ===== src/Main/Loop/Sound.antt =====
-- What a round of the loop of Core 0 keeps, whatever it reads.
use msx_pulse.Shared.{
  ℕ, ◌+◌, ◌≤◌, ◌≡◌, refl, true, false, Bool-cases, inl, inr, if◌then◌else◌, if_keeps, Option, none,
  some, List, arith, ltb, leb, sub32, ◌&&◌, not,
}
use msx_pulse.BootDiag.{Diag}
use msx_pulse.BootDiag.Running.{IsRunning, tick-IsRunning, start-IsRunning}
use msx_pulse.Ui.{Ui, BtnEvent, handle_btn}
use msx_pulse.Ui.Menu.{IsUi, handle_btn-IsUi, render-IsUi, apply-IsUi, power, apply}
use msx_pulse.Buttons.{poll, combo_check, is_none}
use msx_pulse.UsbSerial.Ring.{Line, Ring, get_cmd, out_ring_lines, cmd_line_len}
use msx_pulse.UsbSerial.Fifo.{queue}
use msx_pulse.UsbSerial.Task.{task, receive}
use msx_pulse.UsbSerial.Task.Output.{drain_out_lem, sent_of}
use msx_pulse.UsbSerial.Command.{parse_cmd}
use msx_pulse.AdcRails.Volts.{Floats, snapshot}
use msx_pulse.Hardware.{HwCall}
use msx_pulse.BusProbe.{Snapshot}
use msx_pulse.Oled.{Framebuffer, fb_clear}
use msx_pulse.Ui.Render.{screen, ui_render, oled_refresh}
use msx_pulse.Console.Lines.{RailSnapshot}
use msx_pulse.Console.{
  World, cmd_dispatch, Display, disp_boot, disp_monitoring, disp_firmware_update, disp_msx_health,
}
use msx_pulse.Console.Keeps.{IsWorld, dispatch-IsWorld}
use msx_pulse.Main.{Rails, poll_rails, is_faulty, fault_debounce}
use msx_pulse.Main.Loop.{
  Core0, Input, msx_reset_pulse, step_serial, step_diag, step_rails, step_buttons, step_command,
  step_oled, loop_round, after_serial, command, press, shows_health,
}

module _ {V : Type 0} (fixed : (width precision : ℕ) → V → List ℕ) (floats : Floats V) where
  -- The output ring has its indices in range, the menu is one it can be in, the capture runs exactly
  -- in the capturing phase of a round with passes left, and the count of faults is that of a debounce.
  pub record IsSound (s : Core0 fixed floats) : Type 0 where
    pub world : IsWorld s.world
    pub menu : IsUi s.ui
    pub faults : s.fault_count ≤ fault_debounce

  step_serial-IsSound :
      (i : Input fixed floats) (s : Core0 fixed floats)
      → IsSound s
      → (r : Core0 fixed floats × List Line) × (step_serial fixed floats i s ≡ some r) × IsSound r.0
  unfolding step_serial task
  step_serial-IsSound i s v =
      let (out', run, ring', empty) = drain_out_lem i.up s.world.out v.world.ring in
      let received = receive i.chars (s.task.accum, s.cmd) in
      let served : Core0 fixed floats = record s {
        task = record { was_connected = i.connected; accum = received.0 };
        world = record s.world { out = out' };
        cmd = received.1;
      } in
      (
        (served, sent_of i.up 0 (queue out_ring_lines s.world.out)),
        rw (step_serial, task, run) refl,
        record {
          world = record { ring = ring'; running = v.world.running };
          menu = v.menu;
          faults = v.faults;
        },
      )

  step_diag-IsSound :
      (i : Input fixed floats) (s : Core0 fixed floats)
      → IsSound s
      → IsSound (step_diag fixed floats i s).0
  unfolding step_diag
  step_diag-IsSound i s v = record {
    world = record {
      ring = v.world.ring;
      running = tick-IsRunning i.now_ms i.snap s.world.diag v.world.running;
    };
    menu = v.menu;
    faults = v.faults;
  }

  poll_rails-faults :
      (r : Rails) (count : ℕ) (u : Ui)
      → count ≤ fault_debounce
      → IsUi u
      → ((poll_rails r (count, u)).0 ≤ fault_debounce) × IsUi (poll_rails r (count, u)).1
  unfolding poll_rails apply
  poll_rails-faults r count u few v = elim (Bool-cases (is_faulty r)) [
    | inl faulty ↦ rw faulty (
      ground arith,
      if_keeps IsUi (leb fault_debounce (if ltb count fault_debounce then count + 1 else count))
          (apply-IsUi (power true) u v) v,
    )
    | inr fine ↦ rw fine (ground arith, apply-IsUi (power false) u v)
  ]

  step_rails-IsSound :
      (i : Input fixed floats) (s : Core0 fixed floats)
      → IsSound s
      → IsSound (step_rails fixed floats i s)
  unfolding step_rails
  step_rails-IsSound i s v =
      let (few, menu) =
        poll_rails-faults (snapshot floats s.adc).statuses s.fault_count s.ui v.faults v.menu in
      if_keeps IsSound (leb 500 (sub32 i.now_ms s.last_rail_ms))
        (record { world = v.world; menu = menu; faults = few }) v

  press-IsSound :
      (btn : BtnEvent) (s : Core0 fixed floats) → IsSound s → IsSound (press fixed floats btn s)
  press-IsSound btn s v =
      let started =
        if_keeps IsRunning (handle_btn btn s.ui).1 (start-IsRunning s.world.diag v.world.running)
          v.world.running in
      if_keeps IsSound (not (is_none btn) && shows_health s.world.display)
        (record {
          world = record { ring = v.world.ring; running = v.world.running };
          menu = v.menu;
          faults = v.faults;
        })
        (record {
          world = record { ring = v.world.ring; running = started };
          menu = handle_btn-IsUi btn s.ui v.menu;
          faults = v.faults;
        })

  pulse-IsWorld : (w : World) → IsWorld w → IsWorld (msx_reset_pulse w).0
  unfolding msx_reset_pulse
  pulse-IsWorld w v =
      if_keeps IsWorld w.runtime.detect
        (record {
          ring = v.ring;
          running = record { draining = v.running.draining; few_passes = v.running.few_passes };
        })
        v

  step_buttons-IsSound :
      (i : Input fixed floats) (s : Core0 fixed floats)
      → IsSound s
      → IsSound (step_buttons fixed floats i s).0
  unfolding step_buttons
  step_buttons-IsSound i s v =
      let polled = poll i.btn_now_ms i.levels s.buttons in
      let pressed = press-IsSound polled.1 s v in
      if_keeps (λ (r : Core0 fixed floats × List HwCall). IsSound r.0)
        (leb 1 (sub32 i.now_ms s.last_btn_ms))
        (if_keeps (λ (r : Core0 fixed floats × List HwCall). IsSound r.0) (combo_check polled.0).1
          (record {
            world = pulse-IsWorld (press fixed floats polled.1 s).world pressed.world;
            menu = pressed.menu;
            faults = pressed.faults;
          })
          (record { world = pressed.world; menu = pressed.menu; faults = pressed.faults }))
        v

  command-IsSound :
      (got : Option (Line × Ring)) (i : Input fixed floats) (s : Core0 fixed floats)
      → IsSound s
      → IsSound (command fixed floats got i s).0
  unfolding cmd_dispatch
  command-IsSound none i s v = v
  command-IsSound (some (line, cmd)) i s v = record {
    world =
        dispatch-IsWorld fixed (parse_cmd line).type (parse_cmd line).arg_addr
          (record i.reads { rail_snap = s.rail_snap }) s.world v.world;
    menu = v.menu;
    faults = v.faults;
  }

  screen-IsUi :
      (display : Display) (now_ms : ℕ) (r : RailSnapshot V) (p : Snapshot) (d : Diag) (u : Ui)
      (fb : Framebuffer)
      → IsUi u
      → IsUi (screen fixed display now_ms r p d u fb).0
  unfolding ui_render
  screen-IsUi disp_boot now_ms r p d u fb v = v
  screen-IsUi disp_firmware_update now_ms r p d u fb v = v
  screen-IsUi disp_monitoring now_ms r p d u fb v = render-IsUi d.phase u v
  screen-IsUi disp_msx_health now_ms r p d u fb v = render-IsUi d.phase u v

  step_oled-IsSound :
      (i : Input fixed floats) (s : Core0 fixed floats)
      → IsSound s
      → IsSound (step_oled fixed floats i s)
  unfolding step_oled oled_refresh
  step_oled-IsSound i s v =
      let drawn =
        if_keeps (λ (r : Ui × Framebuffer). IsUi r.0) i.oled_present
          (screen-IsUi s.world.display i.oled_now_ms s.rail_snap i.snap s.world.diag s.ui fb_clear
            v.menu)
          v.menu in
      if_keeps IsSound (leb 100 (sub32 i.now_ms s.last_oled_ms))
        (record { world = v.world; menu = drawn; faults = v.faults }) v

  after_serial-IsSound :
      (i : Input fixed floats) (s : Core0 fixed floats × List Line)
      → IsSound s.0
      → IsSound (after_serial fixed floats i s).0
  unfolding after_serial step_command
  after_serial-IsSound i (s, sent) v =
      let rails = step_rails fixed floats i (step_diag fixed floats i s).0 in
      let pressed = (step_buttons fixed floats i rails).0 in
      let commanded = (step_command fixed floats i pressed).0 in
      let v2 = step_rails-IsSound i (step_diag fixed floats i s).0 (step_diag-IsSound i s v) in
      let v3 : IsSound commanded =
        command-IsSound (get_cmd cmd_line_len pressed.cmd) i pressed
          (step_buttons-IsSound i rails v2) in
      if_keeps IsSound commanded.world.in_bootloader v3 (step_oled-IsSound i commanded v3)

  -- A round of the loop of Core 0 always comes to its end, whatever it reads, and keeps this: the
  -- output ring has its indices in range, the menu is in a state it can be in, the capture is active
  -- exactly in the capturing phase of a diagnostic round and such a round has a pass left, and the
  -- count of faulty rail updates is at most four.
  pub loop_round_lem :
      (i : Input fixed floats) (s : Core0 fixed floats)
      → IsSound s
      → (r : Core0 fixed floats × List Line × List HwCall) × (loop_round fixed floats i s ≡ some r)
        × IsSound r.0
  unfolding loop_round
  loop_round_lem i s v =
      let (served, run, v1) = step_serial-IsSound i s v in
      (
        after_serial fixed floats i served,
        rw (loop_round, run) refl,
        after_serial-IsSound i served v1,
      )
