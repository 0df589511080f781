-- ===== src/Oled/Tests.antt =====
-- "OK" near the right edge.
use msx_pulse.Shared.{
  ℕ, ◌+◌, ◌*◌, ◌≡◌, ◌&&◌, ◌==◌, ltb, leb, if◌then◌else◌, List, [], ◌∷◌, length, arith,
}
use msx_pulse.Oled.{fb_clear, fb_puts, char_w}
use msx_pulse.Oled.Text.{cell, shown, fb_puts_lem}

abbrev ok_text : List ℕ
ok_text = 79 ∷ 75 ∷ []

fb_puts_example : fb_puts 2 120 ok_text fb_clear 2 121 ≡ (
    if 2 == 2 && leb 120 121 && ltb 121 (120 + char_w * shown 120 (length ok_text))
    then cell ok_text 120 121
    else fb_clear 2 121)
fb_puts_example = fb_puts_lem 2 120 ok_text fb_clear 2 121 (omega arith)
