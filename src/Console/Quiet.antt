-- ===== src/Console/Quiet.antt =====
-- The commands that only print.
use msx_pulse.Shared.{ℕ, ◌≡◌, refl, Bool, true, false, [], Text}
use msx_pulse.UsbSerial.Command.{
  CmdType, help, status, reset, dump_hex, rails, update, emu_off, pins, alog_status, alog_reset,
  alog_slot, alog_debug, boot, dash, unknown, ParsedCmd,
}
use msx_pulse.Console.{World, Reads, dispatch, cmd_dispatch}

abbrev pub acts : CmdType → Bool
acts emu_off = true
acts reset = true
acts alog_reset = true
acts alog_debug = true
acts update = true
acts boot = true
acts _ = false

module _ {V : Type 0} (fixed : (width precision : ℕ) → V → Text) where
  record IsQuiet (i : Reads fixed) (k : CmdType) (arg : ℕ) (w : World) : Type 0 where
    pub no_calls : (dispatch fixed k arg i w).1 ≡ []
    pub same : (dispatch fixed k arg i w).0 ≡ record w { out = (dispatch fixed k arg i w).0.out }

  dispatch-IsQuiet :
      (k : CmdType) (arg : ℕ) (i : Reads fixed) (w : World) → acts k ≡ false → IsQuiet i k arg w
  unfolding dispatch
  dispatch-IsQuiet help arg i w h = record { no_calls = refl; same = refl }
  dispatch-IsQuiet status arg i w h = record { no_calls = refl; same = refl }
  dispatch-IsQuiet rails arg i w h = record { no_calls = refl; same = refl }
  dispatch-IsQuiet dump_hex arg i w h = record { no_calls = refl; same = refl }
  dispatch-IsQuiet pins arg i w h = record { no_calls = refl; same = refl }
  dispatch-IsQuiet alog_status arg i w h = record { no_calls = refl; same = refl }
  dispatch-IsQuiet alog_slot arg i w h = record { no_calls = refl; same = refl }
  dispatch-IsQuiet dash arg i w h = record { no_calls = refl; same = refl }
  dispatch-IsQuiet unknown arg i w h = record { no_calls = refl; same = refl }
  dispatch-IsQuiet emu_off arg i w h = absurd (cc)
  dispatch-IsQuiet reset arg i w h = absurd (cc)
  dispatch-IsQuiet alog_reset arg i w h = absurd (cc)
  dispatch-IsQuiet alog_debug arg i w h = absurd (cc)
  dispatch-IsQuiet update arg i w h = absurd (cc)
  dispatch-IsQuiet boot arg i w h = absurd (cc)

  -- A command other than EMU OFF, RESET, ALOG RESET, ALOG DEBUG, UPDATE and BOOT makes no call that acts
  -- on the hardware, and changes nothing of what the commands can change but the output ring.
  pub quiet_lem :
      (cmd : ParsedCmd) (i : Reads fixed) (w : World)
      → acts cmd.type ≡ false
      → ((cmd_dispatch fixed cmd i w).1 ≡ [])
        × ((cmd_dispatch fixed cmd i w).0 ≡ record w { out = (cmd_dispatch fixed cmd i w).0.out })
  unfolding cmd_dispatch
  quiet_lem cmd i w h = let v = dispatch-IsQuiet cmd.type cmd.arg_addr i w h in (v.no_calls, v.same)
