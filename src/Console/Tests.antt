-- ===== src/Console/Tests.antt =====
-- The console on concrete commands.
use msx_pulse.Shared.{
  ℕ, ◌+◌, ◌<◌, ◌≡◌, refl, codes, pos, true, false, All, arith, min, ltb, if◌then◌else◌,
}
use msx_pulse.UsbSerial.Ring.{clip}
use msx_pulse.BootDiag.{DiagResult}
use msx_pulse.Console.Boot.{boot_lines, IsWhole, boot_lines_lem}
use msx_pulse.Console.Probe.{cmd_dump_hex, dump_offset}
use msx_pulse.Console.Dump.{dump_lem}

-- What the output ring keeps of the line of HELP about EMU OFF: the line end is lost.
help_cut :
    clip 79 (
      codes
        "  EMU OFF            disable ROM emulator drive (passive monitor; power-cycle to re-enable)\r\n")
    ≡ codes "  EMU OFF            disable ROM emulator drive (passive monitor; power-cycle t"
unfolding clip codes
help_cut = refl

abbrev one_pass : DiagResult
one_pass = record {
  anomaly_flags = 0;
  stuck_data_hi = 0;
  stuck_data_lo = 0;
  stuck_addr_mask = 0;
  bus_undriven = false;
  cp_checked = 1;
  cp_failed = 0;
  n_reads = 5000;
  phase_flags = 0x1ff;
  last_confirmed = pos 8;
  first_missing = pos 9;
  early_ppi_writes = true;
  basic_workarea_init = true;
  passes_run = 1;
}

boot_lines_example : All IsWhole (boot_lines one_pass)
boot_lines_example = boot_lines_lem one_pass

-- Two images that differ behind the ROM.
abbrev image : ℕ → ℕ
image i = i

abbrev longer : ℕ → ℕ
longer i = if ltb i 16384 then i else 7

image-longer : (i : ℕ) → i < 16384 → image i ≡ longer i
image-longer i h = ground arith

dump_example :
    (cmd_dump_hex image 0x7fff ≡ cmd_dump_hex longer 0x7fff)
    × (0x4000 + dump_offset 0x7fff
        ≡ min 0x7f00 (if ltb 0x7fff 0x4000 then 0x7fff + 0x4000 else 0x7fff))
dump_example = dump_lem image longer 0x7fff image-longer
