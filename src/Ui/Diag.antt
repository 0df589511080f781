-- ===== src/Ui/Diag.antt =====
-- The views of a diagnostic round in src/firmware/ui.c, drawn in the framebuffer.
use msx_pulse.Shared.{
  ℕ, zero, suc, ◌+◌, ◌-◌, ◌*◌, Bool, ◌==◌, ◌!=◌, ltb, leb, if◌then◌else◌, has_bit, bit_and, Option,
  none, some, List, [], ◌∷◌, ◌++◌, Text, codes, decimal, hex, pad_right, snprintf, length, ℤ, pos,
  negsuc, get_or,
}
use msx_pulse.BootDetect.{PhaseStatus, phase_ok, stalled, not_reached, phase_status_of}
use msx_pulse.BootDetect.Names.{phase_short_name}
use msx_pulse.BootDiag.{
  Diag, DiagResult, Phase, idle, pass_begin, capturing, settle, done, current_pass, max_passes,
  clk_absent, clk_out_of_range, reset_stuck,
}
use msx_pulse.Report.Causes.{possible_causes}
use msx_pulse.Report.Round.{anomaly_name, bus_ok}
use msx_pulse.Oled.{Framebuffer, fb_puts, char_w}
use msx_pulse.Ui.Pages.{line_size, puts_right}
use msx_pulse.Ui.Wrap.{Row, wrap_rows}

abbrev progress_word : Phase → Text
progress_word pass_begin = codes "resetting MSX"
progress_word capturing = codes "capturing boot"
progress_word settle = codes "analysing"
progress_word idle = codes "..."
progress_word done = codes "..."

unfoldable pub render_diag_progress : Diag → Framebuffer → Framebuffer
render_diag_progress d fb =
    let pass =
      snprintf line_size
        (codes "Pass " ++ (decimal (current_pass d) ++ (codes "/" ++ decimal max_passes))) in
    fb_puts 7 0 (codes "watching native boot") (
      fb_puts 5 0 (progress_word d.phase)
        (fb_puts 4 0 pass (fb_puts 2 0 (codes "Boot diagnostic") fb)))

abbrev clock_word : DiagResult → Text
clock_word r =
    if has_bit r.anomaly_flags clk_absent
    then codes "ABSENT"
    else if has_bit r.anomaly_flags clk_out_of_range
    then codes "off-freq"
    else codes "present"

abbrev boot_text : DiagResult → ℤ → Text
boot_text r (negsuc m) = codes "BOOT no phases"
boot_text r (pos p) = snprintf line_size (codes "BOOT to " ++ codes (phase_short_name p))

unfoldable pub render_diag_summary : DiagResult → Framebuffer → Framebuffer
render_diag_summary r fb =
    let counts =
      decimal r.passes_run ++ (codes " pass  " ++ (decimal r.n_reads ++ codes " reads")) in
    let reset = if has_bit r.anomaly_flags reset_stuck then codes "HELD" else codes "released" in
    let bus = if bus_ok r then codes "OK" else codes "issues (see 2/6)" in
    let boot =
      if bit_and r.phase_flags 0x1ff == 0x1ff
      then codes "BOOT complete"
      else boot_text r r.last_confirmed in
    fb_puts 5 0 boot (
      fb_puts 4 0 (snprintf line_size (codes "BUS  " ++ bus)) (
        fb_puts 3 0 (snprintf line_size (codes "RST  " ++ reset)) (
          fb_puts 2 0 (snprintf line_size (codes "CLK  " ++ clock_word r))
            (fb_puts 1 0 (snprintf line_size counts) fb))))

-- The loop of `append_bit_names`, with `n` bits left; a buffer of `cap` bytes holds `out`.
unfoldable pub append_bit_names : (cap letter mask n i : ℕ) → (out : Text) → Text
append_bit_names cap letter mask zero i out = out
append_bit_names cap letter mask (suc n) i out =
    let named = letter ∷ (decimal i ++ (32 ∷ [])) in
    let room = cap - length out in
    let rest =
      append_bit_names cap letter mask n (suc i)
        (if has_bit mask i then out ++ snprintf room named else out) in
    if ltb (length out + 4) cap then rest else out

-- A row that is drawn only if there is something to tell, and the row after it.
abbrev put_row : Bool → Text → ℕ × Framebuffer → ℕ × Framebuffer
put_row tells line (row, fb) = if tells then (suc row, fb_puts row 0 line fb) else (row, fb)

abbrev bits_row : Text → (letter mask nbits : ℕ) → ℕ × Framebuffer → ℕ × Framebuffer
bits_row name letter mask nbits s =
    put_row (mask != 0)
      (snprintf line_size (name ++ append_bit_names line_size letter mask nbits 0 [])) s

unfoldable pub render_diag_bus : DiagResult → Framebuffer → Framebuffer
unfolding append_bit_names
render_diag_bus r fb =
    let okay = fb_puts 2 0 (codes "Bus + data: OK") fb in
    let failed = snprintf line_size (codes "opcode fail 0x" ++ hex 2 r.cp_failed) in
    let told = put_row (r.cp_failed != 0) failed (
      put_row r.bus_undriven (codes "bus not driven") (
        bits_row (codes "Astk:") b'A' r.stuck_addr_mask 16 (
          bits_row (codes "Dlo:") b'D' r.stuck_data_lo 8
            (bits_row (codes "Dhi:") b'D' r.stuck_data_hi 8 (1, fb))))) in
    if bus_ok r
    then (if r.cp_checked == 0 then okay else fb_puts 4 0 (codes "opcodes verified") okay)
    else told.1

-- The loop of `render_diag_anomalies`, with `n` anomalies left.
unfoldable pub anomalies_loop : (n a flags row : ℕ) → Framebuffer → Framebuffer
anomalies_loop zero a flags row fb = fb
anomalies_loop (suc n) a flags row fb =
    let named =
      anomalies_loop n (suc a) flags (suc row) (fb_puts row 0 (codes (anomaly_name a)) fb) in
    let absent = anomalies_loop n (suc a) flags row fb in
    if leb row 7 then (if has_bit flags a then named else absent) else fb

unfoldable pub render_diag_anomalies : DiagResult → Framebuffer → Framebuffer
unfolding anomalies_loop
render_diag_anomalies r fb =
    if r.anomaly_flags == 0
    then fb_puts 3 0 (codes "Anomalies: none") fb
    else anomalies_loop 5 0 r.anomaly_flags 1 fb

abbrev phase_status_glyph : PhaseStatus → Text
phase_status_glyph phase_ok = codes "OK"
phase_status_glyph stalled = codes "<<"
phase_status_glyph not_reached = codes "--"

-- `render_diag_phases_range` from phase `i` on, with `n` phases left.
unfoldable pub phases_range : (n i row : ℕ) → DiagResult → Framebuffer → Framebuffer
phases_range zero i row r fb = fb
phases_range (suc n) i row r fb =
    let st = phase_status_of r.phase_flags r.first_missing i in
    let line = pad_right 15 (codes (phase_short_name i)) ++ (32 ∷ phase_status_glyph st) in
    phases_range n (suc i) (suc row) r (fb_puts row 0 (snprintf line_size line) fb)

unfoldable pub draw_rows : List Row → Framebuffer → Framebuffer
draw_rows [] fb = fb
draw_rows ((row, line) ∷ rs) fb = draw_rows rs (fb_puts row 0 line fb)

-- `none` would mean that the fuel of the loop over the words ran out.
abbrev draw_wrapped : Option (List Row) → Framebuffer → Framebuffer
draw_wrapped none fb = fb
draw_wrapped (some rs) fb = draw_rows rs fb

unfoldable pub render_diag_causes : DiagResult → Framebuffer → Framebuffer
unfolding draw_rows
render_diag_causes r fb = draw_wrapped (wrap_rows (possible_causes 400 r).text 1) fb

abbrev titles : List Text
titles =
    codes "Summary"
    ∷ codes "Bus+Data"
    ∷ codes "Anomalies"
    ∷ codes "Phases 1-5"
    ∷ codes "Phases 6-9"
    ∷ codes "Poss.cause"
    ∷ []

-- The `switch` on `s_diag_page`.
abbrev diag_page_of : ℕ → DiagResult → Framebuffer → Framebuffer
diag_page_of zero r fb = render_diag_summary r fb
diag_page_of (suc zero) r fb = render_diag_bus r fb
diag_page_of (suc (suc zero)) r fb = render_diag_anomalies r fb
diag_page_of (suc (suc (suc zero))) r fb = phases_range 5 0 1 r fb
diag_page_of (suc (suc (suc (suc zero)))) r fb = phases_range 4 5 1 r fb
diag_page_of _ r fb = render_diag_causes r fb

abbrev pub footer : Text
footer = codes "up/dn  hold sel=exit"

-- The results view of `ui_render`.
unfoldable pub render_results : (page : ℕ) → DiagResult → Framebuffer → Framebuffer
render_results page r fb =
    let ind = snprintf 8 (decimal (page + 1) ++ codes "/6") in
    let titled = puts_right ind (fb_puts 0 (2 * char_w) (get_or titles page []) fb) in
    fb_puts 7 0 footer (diag_page_of page r titled)
