-- ===== src/Ui/Pages.antt =====
-- The pages of the dashboard and of the settings in src/firmware/ui.c, drawn in the framebuffer.
use msx_pulse.Shared.{
  ℕ, zero, suc, ◌+◌, ◌-◌, ◌*◌, ◌/◌, ◌%◌, Bool, true, false, ◌&&◌, ◌==◌, ltb, if◌then◌else◌, get_or,
  List, [], ◌∷◌, ◌++◌, Text, codes, decimal, pad_right, snprintf, length,
}
use msx_pulse.BusProbe.{
  Snapshot, LineState, active, stuck_hi, stuck_lo, ResetStatus, running, in_reset, pulsing,
  driven_cart, ctrl_count,
}
use msx_pulse.Oled.{Framebuffer, fb_puts, fb_puts_centered, fb_hline, char_w, oled_w, oled_pages}
use msx_pulse.Ui.{Ui, Level, main, detail, settings, n_settings_rows}
use msx_pulse.Console.Lines.{RailSnapshot}

abbrev pub line_size : ℕ
line_size = 22

abbrev is_settings_level : Level → Bool
is_settings_level settings = true
is_settings_level _ = false

unfoldable pub status_text : {V : Type 0} → RailSnapshot V → Ui → Text
status_text r u =
    let msx_absent = r.statuses.status_5v == 3 && r.statuses.status_12v == 3 in
    if is_settings_level u.level
    then codes "settings"
    else if u.power_fault
    then codes "POWER FAULT"
    else if msx_absent
    then codes "no MSX"
    else codes "watching"

-- `label` of `settings_rows`
abbrev settings_labels : List Text
settings_labels = codes "Run boot diag" ∷ codes "back" ∷ []

-- The loop of `render_settings`, with `n` rows left.
unfoldable pub settings_loop : (n i selector : ℕ) → Framebuffer → Framebuffer
settings_loop zero i selector fb = fb
settings_loop (suc n) i selector fb =
    let mark = if i == selector then b'>' else b' ' in
    settings_loop n (suc i) selector (
      fb_puts (oled_pages - 1 - n_settings_rows + i) 0
        (snprintf line_size (mark ∷ get_or settings_labels i [])) fb)

unfoldable pub render_settings : Ui → Framebuffer → Framebuffer
unfolding settings_loop
render_settings u fb = settings_loop n_settings_rows 0 u.selector_idx fb

-- A text that ends at the right edge of the first page.
unfoldable pub puts_right : Text → Framebuffer → Framebuffer
puts_right line fb = fb_puts 0 (oled_w - length line * char_w) line fb

abbrev pub top_right : Level → Ui → Framebuffer → Framebuffer
top_right main u fb = fb_puts 0 (oled_w - 4 * char_w) (codes "MAIN") fb
top_right detail u fb =
    puts_right (snprintf 8 (decimal u.page_idx ++ (codes "/" ++ decimal (u.n_pages - 1)))) fb
top_right settings u fb = fb

unfoldable pub render_top_right_indicator : Ui → Framebuffer → Framebuffer
unfolding puts_right
render_top_right_indicator u fb = top_right u.level u fb

unfoldable pub render_settings_footer : Ui → Framebuffer → Framebuffer
render_settings_footer u fb =
    if is_settings_level u.level then fb_puts_centered 7 (codes "up/dn  hold sel=back") fb else fb

abbrev pub line_glyph : LineState → ℕ
line_glyph active = b'~'
line_glyph stuck_hi = b'H'
line_glyph stuck_lo = b'L'

module _ {V : Type 0} (fixed : (width precision : ℕ) → V → Text) where
  abbrev rail_row : ℕ → Text → V → Framebuffer → Framebuffer
  rail_row row name v fb =
      fb_puts row 0 (snprintf line_size (name ++ (fixed 6 2 v ++ codes " V"))) fb

  unfoldable pub render_rails : RailSnapshot V → Framebuffer → Framebuffer
  render_rails r fb = fb_puts 7 0 (codes "raw - you judge") (
      rail_row 4 (codes "-12V:  ") r.vm12
        (rail_row 3 (codes "+12V:  ") r.v12 (rail_row 2 (codes "+5V :  ") r.v5 (fb_hline 1 fb))))

abbrev pub reset_word : ResetStatus → Text
reset_word running = codes "RUNNING"
reset_word in_reset = codes "IN RESET"
reset_word pulsing = codes "PULSING"
reset_word driven_cart = codes "DRIVEN(cart)"

-- `"%lu.%02lu"` of a frequency, in MHz.
abbrev two_digits : ℕ → Text
two_digits n = if ltb n 10 then 48 ∷ decimal n else decimal n

unfoldable pub clock_text : ℕ → Text
clock_text clk_hz =
    if clk_hz == 0
    then codes "CLK : ABSENT"
    else snprintf line_size (
        codes "CLK : "
        ++ (decimal (clk_hz / 1000000)
            ++ (codes "." ++ (two_digits (clk_hz / 10000 % 100) ++ codes " MHz"))))

unfoldable pub render_clkrst : Snapshot → Framebuffer → Framebuffer
unfolding clock_text
render_clkrst s fb =
    fb_puts 4 0 (snprintf line_size (codes "RST : " ++ reset_word s.reset))
      (fb_puts 2 0 (clock_text s.clk_hz) fb)

abbrev control_names : List Text
control_names =
    codes "/RD"
    ∷ codes "/WR"
    ∷ codes "/MREQ"
    ∷ codes "/IORQ"
    ∷ codes "/M1"
    ∷ codes "/SLT"
    ∷ codes "/WAIT"
    ∷ []

-- `"%-5s %c"` of a control line.
abbrev control_text : Snapshot → ℕ → Text
control_text s i =
    pad_right 5 (get_or control_names i []) ++ (32 ∷ line_glyph (get_or s.ctrl i active) ∷ [])

-- `for (int i = 0; i < CTRL_COUNT; i += 2)`, with `n` rounds left.
unfoldable pub control_loop : (n i row : ℕ) → Snapshot → Framebuffer → Framebuffer
control_loop zero i row s fb = fb
control_loop (suc n) i row s fb =
    let pair = control_text s i ++ (codes "   " ++ control_text s (i + 1)) in
    let line = if ltb (i + 1) ctrl_count then pair else control_text s i in
    control_loop n (i + 2) (suc row) s (fb_puts row 0 (snprintf line_size line) fb)

abbrev legend : Framebuffer → Framebuffer
legend fb = fb_puts 7 0 (codes "~ act  H hi  L lo") fb

unfoldable pub render_control : Snapshot → Framebuffer → Framebuffer
unfolding control_loop
render_control s fb = legend (control_loop 4 0 1 s fb)

-- The glyphs of eight lines from line `i` on.
unfoldable pub glyphs : List LineState → (n i : ℕ) → Text
glyphs ls zero i = []
glyphs ls (suc n) i = line_glyph (get_or ls i active) ∷ glyphs ls n (suc i)

unfoldable pub render_address : Snapshot → Framebuffer → Framebuffer
unfolding glyphs
render_address s fb = legend (
    fb_puts 3 (7 * char_w) (glyphs s.addr 8 8) (
      fb_puts 3 0 (codes "A8-15:")
        (fb_puts 2 (7 * char_w) (glyphs s.addr 8 0) (fb_puts 2 0 (codes "A0-7 :") fb))))

unfoldable pub render_data : Snapshot → Framebuffer → Framebuffer
unfolding glyphs
render_data s fb = legend (
    fb_puts 6 0 (codes "idles floating")
      (fb_puts 2 (7 * char_w) (glyphs s.data_lines 8 0) (fb_puts 2 0 (codes "D0-7 :") fb)))
