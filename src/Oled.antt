-- ===== src/Oled.antt =====
-- src/firmware/oled.c: the framebuffer and what is drawn in it; below, the display itself. A page
-- and a column are natural numbers: no caller passes a negative one.
pub mod Font
pub mod Text
pub mod Probe
pub mod Wire
mod Tests
use msx_pulse.Shared.{
  ℕ, ◌+◌, ◌-◌, ◌*◌, ◌/◌, Bool, ◌&&◌, ◌||◌, ◌==◌, ltb, leb, if◌then◌else◌, List, [], ◌∷◌, get_or,
  length,
}
use msx_pulse.Oled.Font.{font5x7}

abbrev pub oled_pages : ℕ
oled_pages = 8

abbrev pub oled_w : ℕ
oled_w = 128

abbrev pub char_w : ℕ
char_w = 6

-- `fb`: the byte of a page and a column.
abbrev pub Framebuffer : Type 0
Framebuffer = ℕ → ℕ → ℕ

abbrev pub store : ℕ → ℕ → ℕ → Framebuffer → Framebuffer
store page x v fb p col = if p == page && col == x then v else fb p col

pub fb_clear : Framebuffer
fb_clear p col = 0

-- The loop over the columns of a glyph.
unfoldable pub copy_columns : ℕ → ℕ → List ℕ → Framebuffer → Framebuffer
copy_columns page x [] fb = fb
copy_columns page x (g ∷ gs) fb = copy_columns page (x + 1) gs (store page x g fb)

unfoldable pub fb_putglyph : ℕ → ℕ → List ℕ → Framebuffer → Framebuffer
unfolding copy_columns
fb_putglyph page x glyph fb =
    let drawn = copy_columns page x glyph fb in
    let spaced = if ltb (x + 5) oled_w then store page (x + 5) 0 drawn else drawn in
    if leb oled_pages page || ltb oled_w (x + 5) then fb else spaced

-- The glyph of a character, that of `?` if there is none.
unfoldable pub glyph_of : ℕ → List ℕ
unfolding font5x7
glyph_of c = get_or font5x7 ((if ltb c 0x20 || ltb 0x7f c then 63 else c) - 0x20) []

unfoldable pub fb_putchar : ℕ → ℕ → ℕ → Framebuffer → Framebuffer
unfolding fb_putglyph glyph_of
fb_putchar page x c fb = fb_putglyph page x (glyph_of c) fb

unfoldable pub fb_puts : ℕ → ℕ → List ℕ → Framebuffer → Framebuffer
unfolding fb_putchar
fb_puts page x [] fb = fb
fb_puts page x (c ∷ s) fb =
    let rest = fb_puts page (x + char_w) s (fb_putchar page x c fb) in
    if leb (x + char_w) oled_w then rest else fb

unfoldable pub fb_puts_centered : ℕ → List ℕ → Framebuffer → Framebuffer
unfolding fb_puts
fb_puts_centered page s fb = fb_puts page ((oled_w - length s * char_w) / 2) s fb

unfoldable pub fb_hline : ℕ → Framebuffer → Framebuffer
fb_hline page fb p col = if p == page && ltb col oled_w then 0x08 else fb p col
