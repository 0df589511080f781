-- ===== src/Main/Loop/Requests.antt =====
-- What asks for a diagnostic round: buttons and commands together.
use msx_pulse.Shared.{
  ℕ, ◌≡◌, Bool, true, false, not, ◌&&◌, ◌||◌, List, arith, if◌then◌else◌, Bool-cases, inl, inr,
}
use msx_pulse.BootDiag.{Diag, start, is_resting}
use msx_pulse.Ui.{BtnEvent, btn_none, btn_up, btn_down, btn_select, handle_btn}
use msx_pulse.Ui.Menu.{IsUi}
use msx_pulse.Ui.Round.{wants_round, starts_round_lem}
use msx_pulse.UsbSerial.Command.{
  CmdType, ParsedCmd, help, status, reset, dump_hex, rails, update, emu_off, pins, alog_status,
  alog_reset, alog_slot, alog_debug, boot, dash, unknown,
}
use msx_pulse.Console.{World, Reads, dispatch, cmd_dispatch}
use msx_pulse.AdcRails.Volts.{Floats}
use msx_pulse.Main.Loop.{Core0, press, shows_health}

abbrev pub is_boot : CmdType → Bool
is_boot boot = true
is_boot _ = false

start-request :
    (d : Diag) (asked : Bool)
    → (if asked then start d else d).request ≡ (d.request || (is_resting d.phase && asked))
unfolding start
start-request d asked = ground arith

module _ {V : Type 0} (fixed : (width precision : ℕ) → V → List ℕ) (floats : Floats V) where
  press-request :
      (e : BtnEvent) (s : Core0 fixed floats)
      → (press fixed floats e s).world.diag.request ≡ (
          s.world.diag.request
          || (is_resting s.world.diag.phase
              && (not (shows_health s.world.display) && (handle_btn e s.ui).1)))
  unfolding handle_btn
  press-request btn_none s = elim (Bool-cases (shows_health s.world.display)) [
    | inl h ↦ rw h (start-request s.world.diag false)
    | inr h ↦ rw h (start-request s.world.diag false)
  ]
  press-request btn_up s = elim (Bool-cases (shows_health s.world.display)) [
    | inl h ↦ rw h (start-request s.world.diag false)
    | inr h ↦ rw h (start-request s.world.diag (handle_btn btn_up s.ui).1)
  ]
  press-request btn_down s = elim (Bool-cases (shows_health s.world.display)) [
    | inl h ↦ rw h (start-request s.world.diag false)
    | inr h ↦ rw h (start-request s.world.diag (handle_btn btn_down s.ui).1)
  ]
  press-request btn_select s = elim (Bool-cases (shows_health s.world.display)) [
    | inl h ↦ rw h (start-request s.world.diag false)
    | inr h ↦ rw h (start-request s.world.diag (handle_btn btn_select s.ui).1)
  ]

  dispatch-request :
      (k : CmdType) (arg : ℕ) (i : Reads fixed) (w : World)
      → (dispatch fixed k arg i w).0.diag.request
        ≡ (w.diag.request || (is_resting w.diag.phase && is_boot k))
  unfolding dispatch
  dispatch-request boot arg i w = start-request w.diag true
  dispatch-request help arg i w = start-request w.diag false
  dispatch-request status arg i w = start-request w.diag false
  dispatch-request reset arg i w = start-request w.diag false
  dispatch-request dump_hex arg i w = start-request w.diag false
  dispatch-request rails arg i w = start-request w.diag false
  dispatch-request update arg i w = start-request w.diag false
  dispatch-request emu_off arg i w = start-request w.diag false
  dispatch-request pins arg i w = start-request w.diag false
  dispatch-request alog_status arg i w = start-request w.diag false
  dispatch-request alog_reset arg i w = start-request w.diag false
  dispatch-request alog_slot arg i w = start-request w.diag false
  dispatch-request alog_debug arg i w = start-request w.diag false
  dispatch-request dash arg i w = start-request w.diag false
  dispatch-request unknown arg i w = start-request w.diag false

  -- With the menu in a state it can be in, a diagnostic round is asked for after a button event of the
  -- main loop exactly if it was before, or the state machine rests and the event is SELECT on the
  -- first row of the settings, with no round shown and not on the health page, which any button
  -- leaves; and after a command exactly if it was before, or the state machine rests and the command
  -- is BOOT.
  pub requests_lem :
      (e : BtnEvent) (s : Core0 fixed floats) (cmd : ParsedCmd) (i : Reads fixed) (w : World)
      → IsUi s.ui
      → ((press fixed floats e s).world.diag.request ≡ (
          s.world.diag.request
          || (is_resting s.world.diag.phase
              && (not (shows_health s.world.display) && wants_round e s.ui))))
        × ((cmd_dispatch fixed cmd i w).0.diag.request
            ≡ (w.diag.request || (is_resting w.diag.phase && is_boot cmd.type)))
  unfolding cmd_dispatch
  requests_lem e s cmd i w v = (
    rw (← starts_round_lem e s.ui v) (press-request e s),
    dispatch-request cmd.type cmd.arg_addr i w,
  )
