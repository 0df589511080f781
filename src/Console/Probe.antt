-- ===== src/Console/Probe.antt =====
-- The lines of the commands PINS, DUMP and DASH.
use msx_pulse.Shared.{
  ℕ, zero, suc, ◌+◌, ◌-◌, ◌&&◌, ◌==◌, ltb, leb, if◌then◌else◌, get_or, bit_or, bit_not, sub32, List,
  [], ◌∷◌, ◌++◌, Text, codes, decimal, hex, map,
}
use msx_pulse.BusProbe.{
  Snapshot, LineState, active, stuck_hi, stuck_lo, ResetStatus, running, in_reset, pulsing,
  driven_cart, pin,
}
use msx_pulse.Console.Lines.{end_line}

-- A round of the loop of `cmd_pins`: the clock for its test, and the pins.
pub record PinRound : Type 0 where
  pub now_us : ℕ
  pub gpio_in : ℕ

-- The loop, for as long as a second has not passed since `start_us`: what was seen high and low. The
-- rounds given go up to the one that finds the second over.
unfoldable pub pins_loop : (start_us : ℕ) → List PinRound → ℕ × ℕ → ℕ × ℕ
pins_loop start_us [] seen = seen
pins_loop start_us (r ∷ rs) (high, low) =
    let rest = pins_loop start_us rs (bit_or high r.gpio_in, bit_or low (bit_not 32 r.gpio_in)) in
    if ltb (sub32 r.now_us start_us) 1000000 then rest else (high, low)

-- `STATUS(pin)`
unfoldable pub pin_status : ℕ × ℕ → ℕ → ℕ
pin_status (high, low) i =
    if pin high i && pin low i then b'T' else if pin high i then b'H' else b'L'

-- A name before each pin's status.
unfoldable pub named_pins : ℕ × ℕ → List (Text × ℕ) → Text
unfolding pin_status
named_pins seen [] = []
named_pins seen ((name, i) ∷ ps) = name ++ (pin_status seen i ∷ named_pins seen ps)

unfoldable pub cmd_pins : (start_us : ℕ) → List PinRound → List Text
unfolding pins_loop named_pins
cmd_pins start_us rounds =
    let seen = pins_loop start_us rounds (0, 0) in
    codes "PIN TOGGLE TEST (1.0s sample):\r\n"
    ∷ (named_pins seen (
          (codes "A even: A4=", 0)
          ∷ (codes " A2=", 1)
          ∷ (codes " A0=", 2)
          ∷ (codes " A13=", 3)
          ∷ (codes " A8=", 4)
          ∷ (codes " A6=", 5)
          ∷ (codes " A10=", 6)
          ∷ (codes " A15=", 7)
          ∷ [])
        ++ end_line)
    ∷ (named_pins seen (
          (codes "A odd:  A5=", 8)
          ∷ (codes " A3=", 9)
          ∷ (codes " A1=", 10)
          ∷ (codes " A14=", 11)
          ∷ (codes " A12=", 12)
          ∷ (codes " A7=", 13)
          ∷ (codes " A11=", 14)
          ∷ (codes " A9=", 15)
          ∷ [])
        ++ end_line)
    ∷ (named_pins seen (
          (codes "D bus:  D6=", 16)
          ∷ (codes " D7=", 17)
          ∷ (codes " D4=", 18)
          ∷ (codes " D5=", 19)
          ∷ (codes " D2=", 20)
          ∷ (codes " D3=", 21)
          ∷ (codes " D0=", 22)
          ∷ (codes " D1=", 23)
          ∷ [])
        ++ end_line)
    ∷ (named_pins seen (
          (codes "CTRL:   /RD=", 24)
          ∷ (codes " /WR=", 25)
          ∷ (codes " /MREQ=", 26)
          ∷ (codes " /IORQ=", 27)
          ∷ (codes " /M1=", 28)
          ∷ (codes " /SLTSL=", 29)
          ∷ (codes " CLK=", 31)
          ∷ [])
        ++ end_line)
    ∷ (codes "raw HI=$" ++ (hex 8 seen.0 ++ (codes " LO=$" ++ (hex 8 seen.1 ++ end_line))))
    ∷ []

-- The bytes of a row, `n` of them left.
unfoldable pub row_bytes : (ℕ → ℕ) → (n at : ℕ) → Text
row_bytes sram zero at = []
row_bytes sram (suc n) at = (codes " " ++ hex 2 (sram at)) ++ row_bytes sram n (suc at)

unfoldable pub dump_rows : (ℕ → ℕ) → (n base : ℕ) → List Text
unfolding row_bytes
dump_rows sram zero base = []
dump_rows sram (suc n) base =
    (codes "$" ++ (hex 4 (0x4000 + base) ++ (codes ":" ++ (row_bytes sram 16 base ++ end_line))))
    ∷ dump_rows sram n (base + 16)

abbrev pub dump_offset : ℕ → ℕ
dump_offset arg_addr =
    let offset = if leb 0x4000 arg_addr then arg_addr - 0x4000 else arg_addr in
    if ltb 0x3f00 offset then 0x3f00 else offset

unfoldable pub cmd_dump_hex : (ℕ → ℕ) → (arg_addr : ℕ) → List Text
unfolding dump_rows
cmd_dump_hex sram arg_addr = dump_rows sram 16 (dump_offset arg_addr)

-- `gl`
abbrev pub glyph : LineState → ℕ
glyph active = b'~'
glyph stuck_hi = b'H'
glyph stuck_lo = b'L'

abbrev reset_number : ResetStatus → ℕ
reset_number running = 0
reset_number in_reset = 1
reset_number pulsing = 2
reset_number driven_cart = 3

-- `ctrl[i]`; the list has a state for each control line.
abbrev ctrl_glyph : Snapshot → Text → ℕ → Text
ctrl_glyph s name i = name ++ (glyph (get_or s.ctrl i active) ∷ [])

unfoldable pub cmd_dash : Snapshot → List Text
cmd_dash s =
    (if s.clk_hz == 0
      then codes "CLK: ABSENT   RESET: " ++ (decimal (reset_number s.reset) ++ end_line)
      else codes "CLK: "
        ++ (decimal s.clk_hz
            ++ (codes " Hz   RESET: " ++ (decimal (reset_number s.reset) ++ end_line))))
    ∷ (codes "A0-15: " ++ (map glyph s.addr ++ end_line))
    ∷ (codes "D0-7 : " ++ (map glyph s.data_lines ++ end_line))
    ∷ (ctrl_glyph s (codes "CTRL : RD") 0
        ++ (ctrl_glyph s (codes " WR") 1
            ++ (ctrl_glyph s (codes " MREQ") 2
                ++ (ctrl_glyph s (codes " IORQ") 3
                    ++ (ctrl_glyph s (codes " M1") 4
                        ++ (ctrl_glyph s (codes " SLT") 5
                            ++ (ctrl_glyph s (codes " WAIT") 6 ++ end_line)))))))
    ∷ []
