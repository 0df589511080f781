-- ===== src/Report/Causes.antt =====
-- `boot_diag_possible_causes` of src/firmware/boot_diag.c.
use mathlib.Core.List.{append-nil, append_assoc}
use msx_pulse.Shared.{
  ==_zero_of_lt, ℕ, ◌<◌, ◌≤◌, ◌≡◌, refl, sym, Bool, true, false, not, ◌==◌, ◌!=◌, ltb,
  if◌then◌else◌, has_bit, bit_and, any, All, List, [], ◌∷◌, ◌++◌, Text, codes, decimal, hex, length,
  length-append, arith, ℤ, pos, negsuc, Bool-cases, inl, inr,
}
use msx_pulse.BootDetect.Names.{phase_short_name}
use msx_pulse.BootDiag.{
  DiagResult, clk_absent, clk_out_of_range, reset_stuck, no_bus_cycles, wait_stuck_low,
}
use msx_pulse.Report.{Buffer, empty, appendf, append_if, append_mask}
use msx_pulse.Report.Appended.{
  Holds, empty-Holds, appendf-Holds, append_if-Holds, append_mask-Holds, otherwise-Holds, given,
  mask_text,
}

-- `"%s%d "`
abbrev pub line_name : Text → ℕ → Text
line_name letter i = letter ++ (decimal i ++ codes " ")

unfoldable pub append_cause_bits : ℕ → Text → (mask nbits : ℕ) → Text → Buffer → Buffer
append_cause_bits buflen letter mask nbits hint b =
    if mask == 0
    then b
    else appendf buflen (hint ++ codes "\n") (append_mask buflen (line_name letter) nbits 0 mask b)

-- `first_missing` names a phase, or the text is "?".
unfoldable pub stalled_at : ℤ → Text
stalled_at (pos p) = if ltb p 9 then codes (phase_short_name p) else codes "?"
stalled_at (negsuc m) = codes "?"

unfoldable pub no_finding : DiagResult → Text
no_finding r =
    if bit_and r.phase_flags 0x1ff == 0x1ff
    then codes "boot reached cart-scan; CPU/RAM/ROM/BASIC path exercised (VDP/PSG/kbd not proven)\n"
    else codes "boot stalled before " ++ (stalled_at r.first_missing ++ codes "; see Phases\n")

abbrev stuck_hi_hint : Text
stuck_hi_hint = codes "stuck hi - buffer (LVC245) or driver"

abbrev stuck_lo_hint : Text
stuck_lo_hint = codes "stuck lo - buffer (LVC245) or driver"

abbrev stuck_addr_hint : Text
stuck_addr_hint = codes "stuck - line or address decode"

abbrev cp_failed_text : ℕ → Text
cp_failed_text failed =
    codes "opcode mismatch 0x" ++ (hex 2 failed ++ codes " - ROM or data path\n")

abbrev anomaly_causes : ℕ → ℕ → Buffer
anomaly_causes buflen flags =
    append_if (has_bit flags wait_stuck_low) buflen (codes "/WAIT low - wait-state source\n") (
      append_if (has_bit flags no_bus_cycles) buflen
        (codes "no bus cycles - Z80 or addr-decode / ROM /CS\n")
        (append_if (has_bit flags reset_stuck) buflen
          (codes "reset held - RC / Schmitt / short to GND\n")
          (append_if (has_bit flags clk_out_of_range) buflen
            (codes "clock off-freq - xtal / clock gen\n")
            (append_if (has_bit flags clk_absent) buflen
              (codes "no clock - xtal / clock gen / CPU clk pin\n") empty))))

abbrev bus_causes : ℕ → DiagResult → Buffer → Buffer
bus_causes buflen r b = append_if (r.cp_failed != 0) buflen (cp_failed_text r.cp_failed) (
    append_if r.bus_undriven buflen
      (codes "bus not driven - BIOS ROM / /CS / decode / cold joint\n")
      (append_cause_bits buflen (codes "A") r.stuck_addr_mask 16 stuck_addr_hint (
        append_cause_bits buflen (codes "D") r.stuck_data_lo 8 stuck_lo_hint
          (append_cause_bits buflen (codes "D") r.stuck_data_hi 8 stuck_hi_hint b))))

-- `boot_diag_possible_causes` with a buffer that is not null.
unfoldable pub possible_causes : ℕ → DiagResult → Buffer
possible_causes buflen r =
    let b = bus_causes buflen r (anomaly_causes buflen r.anomaly_flags) in
    if buflen == 0 then empty else if b.off == 0 then appendf buflen (no_finding r) b else b

-- The findings of a result, each with its line.
abbrev marked : Text → (mask nbits : ℕ) → Text → Bool × Text
marked letter mask nbits hint =
    (not (mask == 0), mask_text (line_name letter) nbits 0 mask ++ (hint ++ codes "\n"))

abbrev pub findings : DiagResult → List (Bool × Text)
findings r =
    (has_bit r.anomaly_flags clk_absent, codes "no clock - xtal / clock gen / CPU clk pin\n")
    ∷ (has_bit r.anomaly_flags clk_out_of_range, codes "clock off-freq - xtal / clock gen\n")
    ∷ (has_bit r.anomaly_flags reset_stuck, codes "reset held - RC / Schmitt / short to GND\n")
    ∷ (
      has_bit r.anomaly_flags no_bus_cycles,
      codes "no bus cycles - Z80 or addr-decode / ROM /CS\n",
    )
    ∷ (has_bit r.anomaly_flags wait_stuck_low, codes "/WAIT low - wait-state source\n")
    ∷ marked (codes "D") r.stuck_data_hi 8 stuck_hi_hint
    ∷ marked (codes "D") r.stuck_data_lo 8 stuck_lo_hint
    ∷ marked (codes "A") r.stuck_addr_mask 16 stuck_addr_hint
    ∷ (r.bus_undriven, codes "bus not driven - BIOS ROM / /CS / decode / cold joint\n")
    ∷ (r.cp_failed != 0, cp_failed_text r.cp_failed)
    ∷ []

-- The lines of the findings that are there, after `s`.
unfoldable pub listed : Text → List (Bool × Text) → Text
listed s [] = s
listed s ((found, line) ∷ fs) = listed (s ++ given found line) fs

abbrev pub found_any : List (Bool × Text) → Bool
found_any fs = any (λ (f : Bool × Text). f.0) fs

-- One line for each finding, in a fixed order, or what the phases say if there is none.
unfoldable pub causes_text : DiagResult → Text
causes_text r = if found_any (findings r) then listed [] (findings r) else no_finding r

append_cause_bits-Holds :
    (letter : Text) (mask nbits : ℕ) (hint : Text) (buflen : ℕ) (whole : Text) (b : Buffer)
    → 0 < buflen
    → Holds buflen whole b
    → Holds buflen
        (whole ++ given (marked letter mask nbits hint).0 (marked letter mask nbits hint).1)
        (append_cause_bits buflen letter mask nbits hint b)
unfolding append_cause_bits
append_cause_bits-Holds letter mask nbits hint buflen whole b room v =
    elim (Bool-cases (mask == 0)) [
      | inl none_set ↦ rw (none_set, append-nil) v
      | inr some_set ↦
          let pieces = mask_text (line_name letter) nbits 0 mask in
          rw (some_set, sym (append_assoc whole pieces (hint ++ codes "\n")))
            (appendf-Holds buflen (whole ++ pieces) (hint ++ codes "\n") _ room
              (append_mask-Holds (line_name letter) nbits 0 mask buflen whole b room v))
    ]

causes-Holds :
    (buflen : ℕ) (r : DiagResult)
    → 0 < buflen
    → Holds buflen
        (listed [] (findings r))
        (bus_causes buflen r (anomaly_causes buflen r.anomaly_flags))
unfolding listed
causes-Holds buflen r room =
    let off =
      append_if-Holds (has_bit r.anomaly_flags clk_absent) buflen [] _ empty room
        (empty-Holds buflen) in
    let range = append_if-Holds (has_bit r.anomaly_flags clk_out_of_range) buflen _ _ _ room off in
    let held = append_if-Holds (has_bit r.anomaly_flags reset_stuck) buflen _ _ _ room range in
    let quiet = append_if-Holds (has_bit r.anomaly_flags no_bus_cycles) buflen _ _ _ room held in
    let waits = append_if-Holds (has_bit r.anomaly_flags wait_stuck_low) buflen _ _ _ room quiet in
    let his =
      append_cause_bits-Holds (codes "D") r.stuck_data_hi 8 stuck_hi_hint buflen _ _ room waits in
    let los =
      append_cause_bits-Holds (codes "D") r.stuck_data_lo 8 stuck_lo_hint buflen _ _ room his in
    let lines =
      append_cause_bits-Holds (codes "A") r.stuck_addr_mask 16 stuck_addr_hint buflen _ _ room
        los in
    let undriven = append_if-Holds r.bus_undriven buflen _ _ _ room lines in
    append_if-Holds (r.cp_failed != 0) buflen _ _ _ room undriven

listed-grows : (fs : List (Bool × Text)) (s : Text) → length s ≤ length (listed s fs)
unfolding listed
listed-grows [] s = omega arith
listed-grows ((found, line) ∷ fs) s =
    omega (arith, listed-grows fs (s ++ given found line), length-append s (given found line))

listed-none : (fs : List (Bool × Text)) (s : Text) → found_any fs ≡ false → listed s fs ≡ s
unfolding listed
listed-none [] s h = refl
listed-none ((true, line) ∷ fs) s h = absurd (ground arith)
listed-none ((false, line) ∷ fs) s h = rw append-nil (listed-none fs s h)

listed-some :
    (fs : List (Bool × Text)) (s : Text)
    → All (λ (f : Bool × Text). 0 < length f.1) fs
    → found_any fs ≡ true
    → 0 < length (listed s fs)
unfolding listed
listed-some [] s v h = absurd (ground arith)
listed-some ((true, line) ∷ fs) s v h =
    omega (arith, listed-grows fs (s ++ line), length-append s line, v.0)
listed-some ((false, line) ∷ fs) s v h = rw append-nil (listed-some fs s v.1 h)

-- A text that ends in something is not empty.
ends-long : (s t : Text) → 0 < length t → 0 < length (s ++ t)
ends-long s t h = omega (arith, length-append s t)

line_end_long : 0 < length (codes "\n")
unfolding codes
line_end_long = omega arith

marked-long :
    (letter : Text) (mask nbits : ℕ) (hint : Text) → 0 < length (marked letter mask nbits hint).1
marked-long letter mask nbits hint =
    ends-long (mask_text (line_name letter) nbits 0 mask) (hint ++ codes "\n")
      (ends-long hint (codes "\n") end_long)
  where
    end_long : 0 < length (codes "\n")
    end_long = line_end_long

findings-long : (r : DiagResult) → All (λ (f : Bool × Text). 0 < length f.1) (findings r)
unfolding codes
findings-long r =
    let his = marked-long (codes "D") r.stuck_data_hi 8 stuck_hi_hint in
    let los = marked-long (codes "D") r.stuck_data_lo 8 stuck_lo_hint in
    let lines = marked-long (codes "A") r.stuck_addr_mask 16 stuck_addr_hint in
    let failed =
      ends-long (codes "opcode mismatch 0x") _
        (ends-long (hex 2 r.cp_failed) (codes " - ROM or data path\n") (omega arith)) in
    (
      omega arith,
      (
        omega arith,
        (
          omega arith,
          (omega arith, (omega arith, (his, (los, (lines, (omega arith, (failed, tt))))))),
        ),
      ),
    )

-- A buffer of at least one byte holds as much as fits before the NUL of this text: a line for each
-- finding of the result, in this order, the clock, the reset, the bus cycles, /WAIT, the stuck data
-- and address lines by name, an undriven bus, and opcodes that do not match; or, if there is none of
-- these, one line that says whether the boot got through or before which phase it stalled.
pub causes_lem :
    (buflen : ℕ) (r : DiagResult)
    → 0 < buflen
    → Holds buflen (causes_text r) (possible_causes buflen r)
unfolding causes_text possible_causes
causes_lem buflen r room = rw (==_zero_of_lt buflen room) (
    otherwise-Holds (found_any (findings r)) buflen (listed [] (findings r)) (no_finding r) _ room
      (listed-some (findings r) [] (findings-long r)) (listed-none (findings r) [])
      (causes-Holds buflen r room))
