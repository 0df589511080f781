-- ===== src/Report/Tests.antt =====
-- Reports of a boot with a stuck data line.
use msx_pulse.Shared.{◌≡◌, refl, false, pos, arith, codes, decimal, take}
use msx_pulse.BootDiag.{DiagResult}
use msx_pulse.Report.{empty, appendf, append_mask}
use msx_pulse.Report.Appended.{Holds}
use msx_pulse.Report.Causes.{causes_text, possible_causes, causes_lem, append_cause_bits}
use msx_pulse.Report.Round.{format_report}
use msx_pulse.Report.Round.Sections.{report_text, report_lem}

-- D3 and D5 never went low, and the boot stopped at its second phase.
abbrev stuck : DiagResult
stuck = record {
  anomaly_flags = 16;
  stuck_data_hi = 0x28;
  stuck_data_lo = 0;
  stuck_addr_mask = 0;
  bus_undriven = false;
  cp_checked = 1;
  cp_failed = 0;
  n_reads = 4711;
  phase_flags = 1;
  last_confirmed = pos 0;
  first_missing = pos 1;
  early_ppi_writes = false;
  basic_workarea_init = false;
  passes_run = 3;
}

stuck_causes :
    (possible_causes 400 stuck).text
    ≡ codes "/WAIT low - wait-state source\nD3 D5 stuck hi - buffer (LVC245) or driver\n"
unfolding possible_causes codes append_cause_bits appendf append_mask empty decimal take
stuck_causes = refl

causes_example : Holds 20 (causes_text stuck) (possible_causes 20 stuck)
causes_example = causes_lem 20 stuck (omega arith)

report_example : Holds 800 (report_text stuck) (format_report 800 stuck)
report_example = report_lem 800 stuck (omega arith)
