-- ===== src/Console/Lines.antt =====
-- The lines of the commands HELP, STATUS, RAILS and RESET.
use msx_pulse.Shared.{
  ℕ, ◌==◌, ltb, if◌then◌else◌, get_or, List, [], ◌∷◌, ◌++◌, Text, codes, decimal, snprintf,
}
use msx_pulse.UsbSerial.Ring.{out_line_len}
use msx_pulse.Main.{Rails}

abbrev pub end_line : Text
end_line = codes "\r\n"

unfoldable pub cmd_help : List Text
cmd_help =
    codes "Commands:\r\n"
    ∷ codes "  HELP               print commands\r\n"
    ∷ codes "  STATUS             firmware state\r\n"
    ∷ codes "  RESET              assert MSX /RESET 100ms\r\n"
    ∷ codes "  DUMP $AAAA         hex dump 256B of ROM\r\n"
    ∷ codes "  RAILS              ADC rail voltages\r\n"
    ∷ codes "  UPDATE             enter USB bootloader\r\n"
    ∷ codes
        "  EMU OFF            disable ROM emulator drive (passive monitor; power-cycle to re-enable)\r\n"
    ∷ codes "  PINS               1s connectivity probe (each MSX-bus pin: T/H/L)\r\n"
    ∷ codes
        "  ALOG [N|RESET|DEBUG]  /SLTSL capture log (no arg: status; N: slot; RESET: re-arm; DEBUG: pipeline state)\r\n"
    ∷ codes "  BOOT               run passive boot diagnostic; prints last report\r\n"
    ∷ codes "  DASH               live dashboard snapshot\r\n"
    ∷ []

-- `rail_snapshot_t`; the voltages are of a type of floating-point numbers.
pub record RailSnapshot (V : Type 0) : Type 0 where
  pub v5 : V
  pub v12 : V
  pub vm12 : V
  pub statuses : Rails

-- The tag of a status in STATUS, and in RAILS.
unfoldable pub status_tag : ℕ → Text
status_tag s = if s == 0 then codes "OK" else if s == 1 then codes "WARN" else codes "FAIL"

abbrev rail_tags : List Text
rail_tags = codes "OK" ∷ codes "WARN" ∷ codes "FAIL" ∷ codes "n/c" ∷ []

unfoldable pub rail_tag : ℕ → Text
rail_tag s = get_or rail_tags (if ltb s 4 then s else 2) []

module _ {V : Type 0} (fixed : (width precision : ℕ) → V → Text) where
  abbrev status_line : RailSnapshot V → Text
  status_line r =
      codes "+5V:"
      ++ (fixed 0 2 r.v5
          ++ (codes "V "
              ++ (status_tag r.statuses.status_5v
                  ++ (codes "  +12V:"
                      ++ (fixed 0 1 r.v12
                          ++ (codes "V "
                              ++ (status_tag r.statuses.status_12v
                                  ++ (codes "  -12V:"
                                      ++ (fixed 0 1 r.vm12
                                          ++ (codes "V "
                                              ++ (status_tag r.statuses.status_m12v
                                                  ++ end_line)))))))))))

  unfoldable pub cmd_status : RailSnapshot V → List Text
  cmd_status r =
      codes "MSXDOC v0.1  (serve + boot-detect)\r\n" ∷ snprintf out_line_len (status_line r) ∷ []

  abbrev rail_line : Text → (precision : ℕ) → V → ℕ → Text
  rail_line name precision v s =
      snprintf out_line_len
        (name ++ (fixed 5 precision v ++ (codes "V  " ++ (rail_tag s ++ end_line))))

  unfoldable pub cmd_rails : RailSnapshot V → List Text
  cmd_rails r =
      rail_line (codes "+5V:  ") 2 r.v5 r.statuses.status_5v
      ∷ rail_line (codes "+12V: ") 1 r.v12 r.statuses.status_12v
      ∷ rail_line (codes "-12V: ") 1 r.vm12 r.statuses.status_m12v
      ∷ []

-- What `cmd_reset` reads of the line and of the log: before, when asserted, halfway and after.
pub record ResetReadings : Type 0 where
  pub r_pre : ℕ
  pub r_asserted : ℕ
  pub r_mid : ℕ
  pub r_post : ℕ
  pub cap_pre : ℕ
  pub cap_asserted : ℕ
  pub cap_mid : ℕ
  pub cap_post : ℕ

abbrev four : Text → (pre asserted mid post : ℕ) → Text
four name pre asserted mid post =
    name
    ++ (codes "pre="
        ++ (decimal pre
            ++ (codes " ass="
                ++ (decimal asserted
                    ++ (codes " mid="
                        ++ (decimal mid ++ (codes " post=" ++ (decimal post ++ end_line))))))))

unfoldable pub reset_lines : ResetReadings → List Text
reset_lines i =
    four (codes "RESET /RESET: ") i.r_pre i.r_asserted i.r_mid i.r_post
    ∷ four (codes "RESET cap:    ") i.cap_pre i.cap_asserted i.cap_mid i.cap_post
    ∷ codes "MSX /RESET asserted 100ms (alog re-armed)\r\n"
    ∷ []
