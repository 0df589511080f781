-- ===== src/Console/Keeps.antt =====
-- What the commands of the console keep.
use msx_pulse.Shared.{ℕ, ◌-◌, List, [], ◌∷◌, Text}
use msx_pulse.BootDiag.Running.{IsRunning, start-IsRunning}
use msx_pulse.UsbSerial.Ring.{Ring, write_line, clip, out_ring_lines, out_line_len}
use msx_pulse.UsbSerial.Fifo.{IsRing, push_lem}
use msx_pulse.UsbSerial.Command.{
  CmdType, help, status, reset, dump_hex, rails, update, emu_off, pins, alog_status, alog_reset,
  alog_slot, alog_debug, boot, dash, unknown,
}
use msx_pulse.Alog.Print.{print_status, print_slot, print_debug}
use msx_pulse.Console.{World, Reads, write_lines, dispatch}
use msx_pulse.Console.Lines.{cmd_help, cmd_status, cmd_rails, reset_lines}
use msx_pulse.Console.Probe.{cmd_pins, cmd_dump_hex, cmd_dash}
use msx_pulse.Console.Boot.{boot_lines}

-- The output ring has its indices in range, and the capture runs exactly in the capturing phase of a
-- round with passes left.
pub record IsWorld (w : World) : Type 0 where
  pub ring : IsRing out_ring_lines w.out
  pub running : IsRunning w.diag

write_line-IsRing :
    (line : Text) (out : Ring)
    → IsRing out_ring_lines out
    → IsRing out_ring_lines (write_line line out)
unfolding write_line
write_line-IsRing line out v = (push_lem out_ring_lines (clip (out_line_len - 1) line) out v).0

write_lines-IsRing :
    (ls : List Text) (out : Ring)
    → IsRing out_ring_lines out
    → IsRing out_ring_lines (write_lines ls out)
unfolding write_lines
write_lines-IsRing [] out v = v
write_lines-IsRing (line ∷ ls) out v =
    write_lines-IsRing ls (write_line line out) (write_line-IsRing line out v)

module _ {V : Type 0} (fixed : (width precision : ℕ) → V → List ℕ) where
  prints-IsWorld :
      (ls : List Text) (w : World) → IsWorld w → IsWorld (record w { out = write_lines ls w.out })
  prints-IsWorld ls w v = record { ring = write_lines-IsRing ls w.out v.ring; running = v.running }

  pub dispatch-IsWorld :
      (k : CmdType) (arg : ℕ) (i : Reads fixed) (w : World)
      → IsWorld w
      → IsWorld (dispatch fixed k arg i w).0
  unfolding dispatch
  dispatch-IsWorld emu_off arg i w v = record {
    ring = write_line-IsRing _ w.out v.ring;
    running = v.running;
  }
  dispatch-IsWorld alog_reset arg i w v = record {
    ring = write_line-IsRing _ w.out v.ring;
    running = v.running;
  }
  dispatch-IsWorld update arg i w v = record { ring = v.ring; running = v.running }
  dispatch-IsWorld unknown arg i w v = v
  dispatch-IsWorld boot arg i w v = record {
    ring = write_lines-IsRing (boot_lines w.diag.result) w.out v.ring;
    running = start-IsRunning w.diag v.running;
  }
  dispatch-IsWorld reset arg i w v = record {
    ring = write_lines-IsRing (reset_lines i.readings) w.out v.ring;
    running = record { draining = v.running.draining; few_passes = v.running.few_passes };
  }
  dispatch-IsWorld help arg i w v = prints-IsWorld cmd_help w v
  dispatch-IsWorld status arg i w v = prints-IsWorld (cmd_status fixed i.rail_snap) w v
  dispatch-IsWorld rails arg i w v = prints-IsWorld (cmd_rails fixed i.rail_snap) w v
  dispatch-IsWorld dump_hex arg i w v = prints-IsWorld (cmd_dump_hex i.sram arg) w v
  dispatch-IsWorld pins arg i w v = prints-IsWorld (cmd_pins i.pin_start_us i.pin_rounds) w v
  dispatch-IsWorld alog_status arg i w v = prints-IsWorld (print_status i.captured) w v
  dispatch-IsWorld alog_slot arg i w v = prints-IsWorld (print_slot i.log i.captured arg) w v
  dispatch-IsWorld alog_debug arg i w v =
      prints-IsWorld (print_debug i.registers i.captured w.runtime.alog) w v
  dispatch-IsWorld dash arg i w v = prints-IsWorld (cmd_dash i.probe) w v
