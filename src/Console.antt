-- ===== src/Console.antt =====
-- src/firmware/cmd_dispatch.h and cmd_dispatch.c: what each command of the serial console does. A
-- command prints by writing lines to the output ring; what it reads of the hardware is an argument.
pub mod Lines
pub mod Probe
pub mod Boot
pub mod Dump
pub mod Tags
pub mod Quiet
pub mod Keeps
mod Tests
use msx_pulse.Shared.{ℕ, Bool, true, false, List, [], ◌∷◌, ◌++◌, Text, codes}
use msx_pulse.UsbSerial.Ring.{Ring, write_line}
use msx_pulse.UsbSerial.Command.{
  CmdType, help, status, reset, dump_hex, rails, update, emu_off, pins, alog_status, alog_reset,
  alog_slot, alog_debug, boot, dash, unknown, ParsedCmd,
}
use msx_pulse.BusProbe.{Snapshot}
use msx_pulse.BootDetect
use msx_pulse.BootCapture
use msx_pulse.BootDiag.{Diag, start}
use msx_pulse.Hardware.{HwCall, set_fdebug}
use msx_pulse.Alog
use msx_pulse.Alog.Print.{Registers, print_status, print_slot, print_debug}
use msx_pulse.CartServe.Pipeline.{disable_drive}
use msx_pulse.MsxRuntime.{Runtime, cmd_reset}
use msx_pulse.Console.Lines.{
  RailSnapshot, cmd_help, cmd_status, cmd_rails, ResetReadings, reset_lines,
}
use msx_pulse.Console.Probe.{PinRound, cmd_pins, cmd_dump_hex, cmd_dash}
use msx_pulse.Console.Boot.{boot_lines}

-- `display_state_t` of ipc.h
pub data Display : Type 0 where
  disp_boot disp_monitoring disp_firmware_update disp_msx_health : Display

-- What the commands change. `in_bootloader` is that `reset_usb_boot` was called, which does not return.
pub record World : Type 0 where
  pub out : Ring
  pub diag : Diag
  pub display : Display
  pub runtime : Runtime
  pub in_bootloader : Bool

unfoldable pub write_lines : List Text → Ring → Ring
unfolding write_line
write_lines [] out = out
write_lines (line ∷ ls) out = write_lines ls (write_line line out)

-- `fixed w p v` is `%w.pf` of a floating-point number, with `w` 0 for `%.pf`.
module _ {V : Type 0} (fixed : (width precision : ℕ) → V → Text) where
  -- What a command reads: the rails, the snapshot, the access log and its count, the registers of the
  -- log, the clock and the rounds of the pin test, the readings around a reset, and the ROM image.
  pub record Reads : Type 0 where
    pub rail_snap : RailSnapshot V
    pub probe : Snapshot
    pub log : ℕ → ℕ
    pub captured : ℕ
    pub registers : Registers
    pub pin_start_us : ℕ
    pub pin_rounds : List PinRound
    pub readings : ResetReadings
    pub sram : ℕ → ℕ

  abbrev prints : List Text → World → World × List HwCall
  prints ls w = (record w { out = write_lines ls w.out }, [])

  -- `cmd_reset`, less its readings.
  abbrev resets : Reads → World → World × List HwCall
  resets i w = (
    record w {
      diag = record w.diag {
        detect = BootDetect.reset;
        capture = BootCapture.reset w.diag.capture;
      };
      out = write_lines (reset_lines i.readings) w.out;
    },
    cmd_reset w.runtime,
  )

  abbrev boots : World → World × List HwCall
  boots w =
      (record w { diag = start w.diag; out = write_lines (boot_lines w.diag.result) w.out }, [])

  -- The cases of the `switch` of `cmd_dispatch`.
  unfoldable pub dispatch : CmdType → (arg_addr : ℕ) → Reads → World → World × List HwCall
  unfolding write_lines
  dispatch emu_off arg i w = (
    record w {
      out =
          write_line
            (codes "ROM emulator DISABLED "
              ++ (0xe2 ∷ 0x80 ∷ 0x94 ∷ codes " power-cycle to re-enable\r\n"))
            w.out;
    },
    disable_drive w.runtime.pipeline,
  )
  dispatch pins arg i w = prints (cmd_pins i.pin_start_us i.pin_rounds) w
  dispatch reset arg i w = resets i w
  dispatch alog_status arg i w = prints (print_status i.captured) w
  dispatch alog_reset arg i w = (
    record w { out = write_line (codes "ALOG: cleared, PIO+DMA re-armed\r\n") w.out },
    Alog.alog_reset w.runtime.alog,
  )
  dispatch alog_debug arg i w = (
    record w { out = write_lines (print_debug i.registers i.captured w.runtime.alog) w.out },
    set_fdebug 0 i.registers.fdebug ∷ [],
  )
  dispatch alog_slot arg i w = prints (print_slot i.log i.captured arg) w
  dispatch update arg i w = (record w { display = disp_firmware_update; in_bootloader = true }, [])
  dispatch help arg i w = prints cmd_help w
  dispatch status arg i w = prints (cmd_status fixed i.rail_snap) w
  dispatch rails arg i w = prints (cmd_rails fixed i.rail_snap) w
  dispatch dump_hex arg i w = prints (cmd_dump_hex i.sram arg) w
  dispatch boot arg i w = boots w
  dispatch dash arg i w = prints (cmd_dash i.probe) w
  dispatch unknown arg i w = (w, [])

  -- `cmd_dispatch`
  unfoldable pub cmd_dispatch : ParsedCmd → Reads → World → World × List HwCall
  unfolding dispatch
  cmd_dispatch cmd i w = dispatch cmd.type cmd.arg_addr i w
