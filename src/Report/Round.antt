-- ===== src/Report/Round.antt =====
-- `boot_diag_format_report` of src/firmware/boot_diag.c.
pub mod Sections
use mathlib.Core.List.{append_assoc, append-nil}
use Prim.Native.String.{String}
use msx_pulse.Shared.{
  ℕ, zero, suc, ◌+◌, ◌-◌, ◌<◌, ◌≤◌, ◌≡◌, refl, sym, ap, Bool, true, false, not, ◌&&◌, ◌==◌, ◌!=◌,
  if◌then◌else◌, List, [], ◌∷◌, ◌++◌, Text, codes, decimal, hex, take, snprintf, length, arith, ℤ,
  pos, negsuc, ltb, Bool-cases, inl, inr, length-take_le, ◌∙◌,
}
use msx_pulse.BootDetect.{PhaseStatus, phase_ok, stalled, not_reached, phase_status_of, phase_count}
use msx_pulse.BootDetect.Names.{phase_name, phase_short_name}
use msx_pulse.BootDiag.{DiagResult}
use msx_pulse.Report.{Buffer, empty, appendf, append_if, append_mask, append_each}
use msx_pulse.Report.Appended.{
  Holds, empty-Holds, appendf-Holds, append_if-Holds, append_mask-Holds, append_each-Holds, given,
  mask_text, each_text,
}
use msx_pulse.Report.Causes.{possible_causes, causes_text, causes_lem}
use msx_pulse.Report.Lines.{walk_lines, lines_after, walk_lines_lem}

-- `boot_diag_anomaly_name`
unfoldable pub anomaly_name : ℕ → String
anomaly_name zero = "no clock"
anomaly_name (suc zero) = "clock off-freq"
anomaly_name (suc (suc zero)) = "reset held"
anomaly_name (suc (suc (suc zero))) = "no bus cycles"
anomaly_name (suc (suc (suc (suc zero)))) = "/WAIT stuck low"
anomaly_name _ = "?"

abbrev pub anomaly_count : ℕ
anomaly_count = 5

-- `pfx[0] == 'D'`
abbrev letter_of : Text → ℕ
letter_of [] = b'A'
letter_of (c ∷ s) = if c == b'D' then b'D' else b'A'

abbrev pub bit_name : Text → ℕ → Text
bit_name pfx i = 32 ∷ letter_of pfx ∷ decimal i

unfoldable pub append_bits : ℕ → Text → (mask nbits : ℕ) → Buffer → Buffer
append_bits buflen pfx mask nbits b =
    if mask == 0
    then b
    else appendf buflen (codes "\n")
        (append_mask buflen (bit_name pfx) nbits 0 mask (appendf buflen pfx b))

abbrev pub bullet : Text → Text
bullet line = codes "- " ++ (line ++ codes "\n")

unfoldable pub append_lines : ℕ → List Text → Buffer → Buffer
append_lines buflen [] b = b
append_lines buflen (line ∷ ls) b = append_lines buflen ls (appendf buflen (bullet line) b)

abbrev pub status_word : PhaseStatus → Text
status_word phase_ok = codes "OK"
status_word stalled = codes "STALLED"
status_word not_reached = codes "--"

-- The phase named next: a negative one would be cast to no phase.
abbrev pub next_phase : ℤ → Text
next_phase (pos p) = if ltb p phase_count then codes (phase_name p) else codes "complete"
next_phase (negsuc m) = codes "?"

abbrev pub phase_line : DiagResult → ℕ → Text
phase_line r i =
    codes "- "
    ++ (codes (phase_short_name i)
        ++ (codes ": "
            ++ (status_word (phase_status_of r.phase_flags r.first_missing i) ++ codes "\n")))

abbrev yes_no : Bool → Text
yes_no b = if b then codes "yes" else codes "no"

abbrev pub heading : DiagResult → Text
heading r =
    codes "Passive boot diagnostic ("
    ++ (decimal r.passes_run
        ++ (codes " pass" ++ ((if r.passes_run == 1 then [] else codes "es") ++ codes ")\n\n")))

abbrev pub reads_line : DiagResult → Text
reads_line r = codes "Bus integrity (" ++ (decimal r.n_reads ++ codes " reads):\n")

abbrev pub failed_line : DiagResult → Text
failed_line r = codes "- opcode checkpoint(s) failed: 0x" ++ (hex 2 r.cp_failed ++ codes "\n")

abbrev pub next_line : DiagResult → Text
next_line r = codes "\nNext missing phase: " ++ (next_phase r.first_missing ++ codes "\nPhases:\n")

abbrev pub writes_line : DiagResult → Text
writes_line r =
    codes "- PPI writes: "
    ++ (yes_no r.early_ppi_writes
        ++ (codes "  work-RAM: " ++ (yes_no r.basic_workarea_init ++ codes "\n")))

abbrev pub bus_ok : DiagResult → Bool
bus_ok r =
    r.stuck_data_hi == 0
    && r.stuck_data_lo == 0
    && r.stuck_addr_mask == 0
    && not r.bus_undriven
    && r.cp_failed == 0

unfoldable pub append_causes : ℕ → DiagResult → Buffer → Buffer
unfolding append_lines walk_lines possible_causes
append_causes buflen r b = append_lines buflen (walk_lines 400 (possible_causes 400 r).text) b

unfoldable pub append_integrity : ℕ → DiagResult → Buffer → Buffer
unfolding append_bits
append_integrity buflen r b =
    if bus_ok r
    then appendf buflen (codes "- OK\n") b
    else append_if (r.cp_failed != 0) buflen (failed_line r) (
        append_if r.bus_undriven buflen (codes "- bus not driven on reads\n") (
          append_bits buflen (codes "Addr stuck:") r.stuck_addr_mask 16 (
            append_bits buflen (codes "Data stuck LOW:") r.stuck_data_lo 8
              (append_bits buflen (codes "Data stuck HIGH:") r.stuck_data_hi 8 b))))

abbrev pub anomaly_line : ℕ → Text
anomaly_line a = bullet (codes (anomaly_name a))

unfoldable pub append_anomalies : ℕ → DiagResult → Buffer → Buffer
append_anomalies buflen r b =
    if r.anomaly_flags == 0
    then b
    else append_mask buflen anomaly_line anomaly_count 0 r.anomaly_flags
        (appendf buflen (codes "Anomalies:\n") b)

-- With a buffer that is not null.
unfoldable pub format_report : ℕ → DiagResult → Buffer
unfolding append_causes append_integrity append_anomalies
format_report buflen r =
    let begun = appendf buflen (codes "Possible causes:\n") (appendf buflen (heading r) empty) in
    let caused = appendf buflen (codes "\n") (append_causes buflen r begun) in
    let checked = append_integrity buflen r (appendf buflen (reads_line r) caused) in
    let named = appendf buflen (next_line r) (append_anomalies buflen r checked) in
    let phases = append_each buflen (phase_line r) phase_count 0 named in
    if buflen == 0 then empty else appendf buflen (writes_line r) phases
