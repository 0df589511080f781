-- ===== src/Oled/Wire.antt =====
-- What src/firmware/oled.c writes to the display over I2C, each transaction as its bytes.
use msx_pulse.Shared.{
  ℕ, zero, suc, Bool, ltb, if◌then◌else◌, Option, none, some, List, [], ◌∷◌, ◌++◌, length,
}
use msx_pulse.Oled.{Framebuffer, fb_clear, oled_pages, oled_w}
use msx_pulse.Oled.Probe.{oled_probe}

abbrev pub Bytes : Type 0
Bytes = List ℕ

-- Commands that do not fit the buffer of 32 bytes are not sent.
unfoldable pub oled_cmdn : Bytes → List Bytes
oled_cmdn cmds = if ltb 31 (length cmds) then [] else (0x00 ∷ cmds) ∷ []

-- `memcpy(buf + 1, fb[pg], OLED_W)`: the bytes of a page from column `x` on.
unfoldable pub page_bytes : (n x : ℕ) → (ℕ → ℕ) → Bytes
page_bytes zero x page = []
page_bytes (suc n) x page = page x ∷ page_bytes n (suc x) page

unfoldable pub flush_pages : (n pg : ℕ) → Framebuffer → List Bytes
unfolding page_bytes
flush_pages zero pg fb = []
flush_pages (suc n) pg fb = (0x40 ∷ page_bytes oled_w 0 (fb pg)) ∷ flush_pages n (suc pg) fb

unfoldable pub oled_flush : Framebuffer → List Bytes
unfolding oled_cmdn flush_pages
oled_flush fb = oled_cmdn (0x21 ∷ 0 ∷ 127 ∷ 0x22 ∷ 0 ∷ 7 ∷ []) ++ flush_pages oled_pages 0 fb

unfoldable pub ssd1306_init : List Bytes
unfolding oled_cmdn
ssd1306_init = oled_cmdn (
    0xae ∷ 0xd5 ∷ 0x80 ∷ 0xa8 ∷ 0x3f ∷ 0xd3 ∷ 0x00 ∷ 0x40 ∷ 0x8d ∷ 0x14 ∷ 0x20 ∷ 0x00 ∷ 0xa1 ∷ 0xc8
    ∷ 0xda ∷ 0x12 ∷ 0x81 ∷ 0xcf ∷ 0xd9 ∷ 0xf1 ∷ 0xdb ∷ 0x40 ∷ 0xa4 ∷ 0xa6 ∷ 0xaf ∷ [])

-- `oled_init` after the set-up of the bus: the address of the display, if one is present, and what is
-- written to it.
unfoldable pub oled_init : (acks : ℕ → ℕ → Bool) → Option ℕ × List Bytes
unfolding oled_probe oled_flush ssd1306_init
oled_init acks = elim (oled_probe acks) [
  | none ↦ (none, [])
  | some addr ↦ (some addr, ssd1306_init ++ oled_flush fb_clear)
]
