-- ===== src/Report/Phases.antt =====
-- `boot_detect_format_report` of src/firmware/boot_detect.c.
use mathlib.Core.List.{append_assoc}
use msx_pulse.Shared.{
  ==_zero_of_lt, ℕ, ◌/◌, ◌%◌, ◌^◌, ◌<◌, ◌≡◌, Bool, ◌==◌, if◌then◌else◌, [], ◌++◌, Text, codes, hex,
  ℤ, pos, negsuc,
}
use msx_pulse.BootDetect.{BootDetect, phase_count}
use msx_pulse.BootDetect.Names.{phase_name, failure_category}
use msx_pulse.Report.{Buffer, empty, appendf, append_each}
use msx_pulse.Report.Appended.{
  Holds, Holds-same, empty-Holds, appendf-Holds, append_each-Holds, each_text,
}
use msx_pulse.Report.Round.{next_phase}

abbrev last_phase : ℤ → Text
last_phase (pos p) = codes (phase_name p)
last_phase (negsuc m) = codes "none"

abbrev flag_word : Bool → Text
flag_word b = if b then codes "yes" else codes "no"

abbrev phase_line : BootDetect → ℕ → Text
phase_line s i =
    codes "- "
    ++ (codes (phase_name i)
        ++ (codes ": " ++ (flag_word (s.phase_flags / 2 ^ i % 2 == 1) ++ codes "\n")))

abbrev flag_line : Text → Bool → Text
flag_line name b = name ++ (flag_word b ++ codes "\n")

abbrev last_line : BootDetect → Text
last_line s = codes "Last confirmed phase: " ++ (last_phase s.last_confirmed ++ codes "\n")

abbrev next_line : BootDetect → Text
next_line s =
    codes "Next missing phase: " ++ (next_phase s.first_missing ++ codes "\n\nObserved:\n")

abbrev header_line : BootDetect → Text
header_line s =
    codes "- Header bytes: "
    ++ (hex 2 s.header_4000 ++ (codes " " ++ (hex 2 s.header_4001 ++ codes "\n")))

abbrev area_line : BootDetect → Text
area_line s = codes "\nLikely failure area:\n" ++ (codes (failure_category s) ++ codes "\n")

abbrev ppi_line : BootDetect → Text
ppi_line s = flag_line (codes "- Early PPI/slot writes: ") s.early_ppi_writes

abbrev workarea_line : BootDetect → Text
workarea_line s = flag_line (codes "- BASIC work-area init: ") s.basic_workarea_init

abbrev read_line : BootDetect → Text
read_line s = flag_line (codes "- Header read (AB): ") s.header_read

-- With a buffer that is not null.
unfoldable pub format_detect : ℕ → BootDetect → Buffer
format_detect buflen s =
    let begun = appendf buflen (codes "Boot phase detector result\n\n") empty in
    let named = appendf buflen (next_line s) (appendf buflen (last_line s) begun) in
    let phases = append_each buflen (phase_line s) phase_count 0 named in
    let writes = appendf buflen (workarea_line s) (appendf buflen (ppi_line s) phases) in
    let header = appendf buflen (header_line s) (appendf buflen (read_line s) writes) in
    if buflen == 0 then empty else appendf buflen (area_line s) header

-- The text of a report of the detector.
unfoldable pub detect_text : BootDetect → Text
detect_text s =
    codes "Boot phase detector result\n\n"
    ++ (last_line s
        ++ (next_line s
            ++ (each_text (phase_line s) phase_count 0
                ++ (ppi_line s
                    ++ (workarea_line s ++ (read_line s ++ (header_line s ++ area_line s)))))))

-- A report of the detector is that text, cut to the buffer.
pub detect_report_lem :
    (buflen : ℕ) (s : BootDetect)
    → 0 < buflen
    → Holds buflen (detect_text s) (format_detect buflen s)
unfolding detect_text format_detect
detect_report_lem buflen s room =
    let title =
      appendf-Holds buflen [] (codes "Boot phase detector result\n\n") empty room
        (empty-Holds buflen) in
    let last = appendf-Holds buflen _ (last_line s) _ room title in
    let next = appendf-Holds buflen _ (next_line s) _ room last in
    let phases = append_each-Holds (phase_line s) phase_count 0 buflen _ _ room next in
    let ppi = appendf-Holds buflen _ (ppi_line s) _ room phases in
    let workarea = appendf-Holds buflen _ (workarea_line s) _ room ppi in
    let read = appendf-Holds buflen _ (read_line s) _ room workarea in
    let header = appendf-Holds buflen _ (header_line s) _ room read in
    rw (==_zero_of_lt buflen room) (
      Holds-same buflen _ _ _
        (in_a_row (codes "Boot phase detector result\n\n") (last_line s) (next_line s)
          (each_text (phase_line s) phase_count 0) (ppi_line s) (workarea_line s) (read_line s)
          (header_line s) (area_line s))
        (appendf-Holds buflen _ (area_line s) _ room header))
  where
    in_a_row :
        (s1 s2 s3 s4 s5 s6 s7 s8 s9 : Text)
        → (((((((s1 ++ s2) ++ s3) ++ s4) ++ s5) ++ s6) ++ s7) ++ s8) ++ s9
          ≡ s1 ++ (s2 ++ (s3 ++ (s4 ++ (s5 ++ (s6 ++ (s7 ++ (s8 ++ s9)))))))
    in_a_row s1 s2 s3 s4 s5 s6 s7 s8 s9 = simp append_assoc
