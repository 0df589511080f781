-- ===== src/Console/Boot.antt =====
-- The lines of the command BOOT.
use msx_pulse.Shared.{
  Bool-cases, inl, inr, ap, ℕ, suc, ◌-◌, ◌≤◌, ◌≡◌, ◌==◌, leb, if◌then◌else◌, List, [], ◌∷◌, ◌++◌,
  Text, codes, take, map, length, length-take_le, length-append, All, arith, refl, zero,
}
use msx_pulse.UsbSerial.Ring.{out_line_len, clip}
use msx_pulse.BootDiag.{DiagResult}
use msx_pulse.Report.Lines.{walk_lines}
use msx_pulse.Report.Round.{format_report}
use msx_pulse.Console.Lines.{end_line}

-- A line of the report, cut so that the line end fits.
unfoldable pub report_line : Text → Text
report_line line =
    let len = length line in
    let kept = if leb (out_line_len - 2) len then out_line_len - 3 else len in
    take kept line ++ end_line

unfoldable pub boot_lines : DiagResult → List Text
unfolding report_line format_report walk_lines
boot_lines r =
    codes "Boot diagnostic started; watch OLED. Run BOOT again when DONE for the report.\r\n"
    ∷ (if r.passes_run == 0
        then []
        else map report_line (walk_lines 800 (format_report 800 r).text))

-- A line that the output ring takes whole, and that ends as lines do.
pub record IsWhole (line : Text) : Type 0 where
  pub fits : clip (out_line_len - 1) line ≡ line
  pub ends : (s : Text) × (line ≡ s ++ end_line)

clip-all : (n : ℕ) (s : Text) → length s ≤ n → clip n s ≡ s
unfolding clip
clip-all zero [] h = refl
clip-all zero (c ∷ s) h = absurd (omega arith)
clip-all (suc n) [] h = refl
clip-all (suc n) (c ∷ s) h = ap (λ (t : Text). c ∷ t) (clip-all n s (omega arith))

length-end_line : length end_line ≡ 2
unfolding codes
length-end_line = refl

report_line-IsWhole : (line : Text) → IsWhole (report_line line)
unfolding report_line
report_line-IsWhole line =
    let len = length line in
    let kept = if leb (out_line_len - 2) len then out_line_len - 3 else len in
    let few : kept ≤ 77 = ground arith in
    record {
      fits = clip-all 79 (take kept line ++ end_line) (
          omega (
            arith,
            length-append (take kept line) end_line,
            length-end_line,
            length-take_le kept line,
          ));
      ends = (take kept line, refl);
    }

started-IsWhole :
    IsWhole
      (codes "Boot diagnostic started; watch OLED. Run BOOT again when DONE for the report.\r\n")
unfolding codes clip
started-IsWhole = record {
  fits = refl;
  ends =
      (codes "Boot diagnostic started; watch OLED. Run BOOT again when DONE for the report.", refl);
}

report_lines-IsWhole : (ls : List Text) → All IsWhole (map report_line ls)
report_lines-IsWhole [] = tt
report_lines-IsWhole (line ∷ ls) = (report_line-IsWhole line, report_lines-IsWhole ls)

-- Whatever the last result is, BOOT prints only lines that the output ring takes whole and that end
-- with a carriage return and a line feed.
pub boot_lines_lem : (r : DiagResult) → All IsWhole (boot_lines r)
unfolding boot_lines
boot_lines_lem r = elim (Bool-cases (r.passes_run == 0)) [
  | inl none_run ↦ rw none_run (started-IsWhole, tt)
  | inr some_run ↦
      rw some_run
        (started-IsWhole, report_lines-IsWhole (walk_lines 800 (format_report 800 r).text))
]
