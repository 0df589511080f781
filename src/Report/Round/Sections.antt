-- ===== src/Report/Round/Sections.antt =====
-- The text of a report of boot_diag_format_report, section by section.
use mathlib.Core.List.{append_assoc, append-nil}
use msx_pulse.Shared.{
  ==_zero_of_lt, ℕ, ◌<◌, ◌≡◌, ap, not, ◌==◌, ◌!=◌, if◌then◌else◌, List, [], ◌∷◌, ◌++◌, Text, codes,
  take, arith, Bool-cases, inl, inr, length-take_le, ◌∙◌,
}
use msx_pulse.BootDetect.{phase_count}
use msx_pulse.BootDiag.{DiagResult}
use msx_pulse.Report.{Buffer, empty, appendf}
use msx_pulse.Report.Appended.{
  Holds, Holds-same, empty-Holds, appendf-Holds, append_if-Holds, append_mask-Holds,
  append_each-Holds, given, mask_text, each_text,
}
use msx_pulse.Report.Causes.{possible_causes, causes_text, causes_lem}
use msx_pulse.Report.Lines.{walk_lines, lines_after, walk_lines_lem}
use msx_pulse.Report.Round.{
  anomaly_count, bit_name, append_bits, bullet, append_lines, heading, reads_line, failed_line,
  next_line, writes_line, phase_line, anomaly_line, bus_ok, append_causes, append_integrity,
  append_anomalies, format_report,
}

unfoldable pub bullets : Text → List Text → Text
bullets s [] = s
bullets s (line ∷ ls) = bullets (s ++ bullet line) ls

abbrev bits_text : Text → (mask nbits : ℕ) → Text
bits_text pfx mask nbits =
    given (not (mask == 0)) (pfx ++ (mask_text (bit_name pfx) nbits 0 mask ++ codes "\n"))

abbrev integrity_text : DiagResult → Text
integrity_text r =
    if bus_ok r
    then codes "- OK\n"
    else bits_text (codes "Data stuck HIGH:") r.stuck_data_hi 8
      ++ (bits_text (codes "Data stuck LOW:") r.stuck_data_lo 8
          ++ (bits_text (codes "Addr stuck:") r.stuck_addr_mask 16
              ++ (given r.bus_undriven (codes "- bus not driven on reads\n")
                  ++ given (r.cp_failed != 0) (failed_line r))))

abbrev anomalies_text : DiagResult → Text
anomalies_text r =
    given (not (r.anomaly_flags == 0))
      (codes "Anomalies:\n" ++ mask_text anomaly_line anomaly_count 0 r.anomaly_flags)

abbrev phases_text : DiagResult → Text
phases_text r = next_line r ++ (each_text (phase_line r) phase_count 0 ++ writes_line r)

-- The sections of a report. The causes pass through a buffer of 400 bytes.
unfoldable pub report_text : DiagResult → Text
report_text r =
    bullets (heading r ++ codes "Possible causes:\n") (lines_after [] (take 399 (causes_text r)))
    ++ (codes "\n" ++ (reads_line r ++ (integrity_text r ++ (anomalies_text r ++ phases_text r))))

append_lines-Holds :
    (ls : List Text) (buflen : ℕ) (whole : Text) (b : Buffer)
    → 0 < buflen
    → Holds buflen whole b
    → Holds buflen (bullets whole ls) (append_lines buflen ls b)
unfolding bullets append_lines
append_lines-Holds [] buflen whole b room v = v
append_lines-Holds (line ∷ ls) buflen whole b room v =
    append_lines-Holds ls buflen (whole ++ bullet line) (appendf buflen (bullet line) b) room
      (appendf-Holds buflen whole (bullet line) b room v)

append_bits-Holds :
    (pfx : Text) (mask nbits : ℕ) (buflen : ℕ) (whole : Text) (b : Buffer)
    → 0 < buflen
    → Holds buflen whole b
    → Holds buflen (whole ++ bits_text pfx mask nbits) (append_bits buflen pfx mask nbits b)
unfolding append_bits
append_bits-Holds pfx mask nbits buflen whole b room v = elim (Bool-cases (mask == 0)) [
  | inl none_set ↦ rw (none_set, append-nil) v
  | inr some_set ↦
      let named =
        append_mask-Holds (bit_name pfx) nbits 0 mask buflen _ _ room
          (appendf-Holds buflen whole pfx b room v) in
      rw some_set (simp append_assoc at (appendf-Holds buflen _ (codes "\n") _ room named))
]

append_integrity-Holds :
    (buflen : ℕ) (r : DiagResult) (whole : Text) (b : Buffer)
    → 0 < buflen
    → Holds buflen whole b
    → Holds buflen (whole ++ integrity_text r) (append_integrity buflen r b)
unfolding append_integrity
append_integrity-Holds buflen r whole b room v = elim (Bool-cases (bus_ok r)) [
  | inl okay ↦ rw okay (appendf-Holds buflen whole (codes "- OK\n") b room v)
  | inr wrong ↦
      let his = append_bits-Holds (codes "Data stuck HIGH:") r.stuck_data_hi 8 buflen _ _ room v in
      let los = append_bits-Holds (codes "Data stuck LOW:") r.stuck_data_lo 8 buflen _ _ room his in
      let lines =
        append_bits-Holds (codes "Addr stuck:") r.stuck_addr_mask 16 buflen _ _ room los in
      let undriven =
        append_if-Holds r.bus_undriven buflen _ (codes "- bus not driven on reads\n") _ room
          lines in
      let failed = append_if-Holds (r.cp_failed != 0) buflen _ (failed_line r) _ room undriven in
      rw wrong (simp append_assoc at failed)
]

append_anomalies-Holds :
    (buflen : ℕ) (r : DiagResult) (whole : Text) (b : Buffer)
    → 0 < buflen
    → Holds buflen whole b
    → Holds buflen (whole ++ anomalies_text r) (append_anomalies buflen r b)
unfolding append_anomalies
append_anomalies-Holds buflen r whole b room v = elim (Bool-cases (r.anomaly_flags == 0)) [
  | inl none_set ↦ rw (none_set, append-nil) v
  | inr some_set ↦
      let named =
        append_mask-Holds anomaly_line anomaly_count 0 r.anomaly_flags buflen _ _ room
          (appendf-Holds buflen whole (codes "Anomalies:\n") b room v) in
      rw some_set (simp append_assoc at named)
]

-- What the causes leave in their own buffer fits the loop over their lines.
append_causes-Holds :
    (buflen : ℕ) (r : DiagResult) (whole : Text) (b : Buffer)
    → 0 < buflen
    → Holds buflen whole b
    → Holds buflen
        (bullets whole (lines_after [] (take 399 (causes_text r))))
        (append_causes buflen r b)
unfolding append_causes
append_causes-Holds buflen r whole b room v =
    let causes : Holds 400 (causes_text r) (possible_causes 400 r) =
      causes_lem 400 r (omega arith) in
    let all_lines : walk_lines 400 (possible_causes 400 r).text
        ≡ lines_after [] (take 399 (causes_text r)) =
      ap (walk_lines 400) causes.text
      ∙ walk_lines_lem 400 (take 399 (causes_text r))
          (omega (arith, length-take_le 399 (causes_text r))) in
    rw all_lines
      (append_lines-Holds (lines_after [] (take 399 (causes_text r))) buflen whole b room v)

-- A buffer of at least one byte holds as much of the report as fits before the NUL, and the report is
-- these sections in a row: the causes, cut to 399 characters, line by line as bullets; the
-- integrity of the bus; the anomalies, if there are any; and the status of every phase.
pub report_lem :
    (buflen : ℕ) (r : DiagResult)
    → 0 < buflen
    → Holds buflen (report_text r) (format_report buflen r)
unfolding report_text format_report
report_lem buflen r room =
    let head = appendf-Holds buflen [] (heading r) empty room (empty-Holds buflen) in
    let begun = appendf-Holds buflen _ (codes "Possible causes:\n") _ room head in
    let caused =
      appendf-Holds buflen _ (codes "\n") _ room (append_causes-Holds buflen r _ _ room begun) in
    let reads = appendf-Holds buflen _ (reads_line r) _ room caused in
    let checked = append_integrity-Holds buflen r _ _ room reads in
    let named = append_anomalies-Holds buflen r _ _ room checked in
    let next = appendf-Holds buflen _ (next_line r) _ room named in
    let phases = append_each-Holds (phase_line r) phase_count 0 buflen _ _ room next in
    rw (==_zero_of_lt buflen room) (
      Holds-same buflen _ _ _
        (in_a_row (bullets _ _) (codes "\n") (reads_line r) (integrity_text r) (anomalies_text r)
          (next_line r) (each_text (phase_line r) phase_count 0) (writes_line r))
        (appendf-Holds buflen _ (writes_line r) _ room phases))
  where
    in_a_row :
        (s1 s2 s3 s4 s5 s6 s7 s8 : Text)
        → ((((((s1 ++ s2) ++ s3) ++ s4) ++ s5) ++ s6) ++ s7) ++ s8
          ≡ s1 ++ (s2 ++ (s3 ++ (s4 ++ (s5 ++ (s6 ++ (s7 ++ s8))))))
    in_a_row s1 s2 s3 s4 s5 s6 s7 s8 = simp append_assoc
