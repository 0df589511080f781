-- ===== src/Oled/Font.antt =====
-- The table `font5x7` of src/firmware/oled.c, from the space on.
use msx_pulse.Shared.{ℕ, List, [], ◌∷◌}

abbrev pub glyph : ℕ → ℕ → ℕ → ℕ → ℕ → List ℕ
glyph a b c d e = a ∷ b ∷ c ∷ d ∷ e ∷ []

unfoldable pub font5x7 : List (List ℕ)
font5x7 =
    glyph 0x00 0x00 0x00 0x00 0x00
    ∷ glyph 0x00 0x00 0x5f 0x00 0x00
    ∷ glyph 0x00 0x07 0x00 0x07 0x00
    ∷ glyph 0x14 0x7f 0x14 0x7f 0x14
    ∷ glyph 0x24 0x2a 0x7f 0x2a 0x12
    ∷ glyph 0x23 0x13 0x08 0x64 0x62
    ∷ glyph 0x36 0x49 0x55 0x22 0x50
    ∷ glyph 0x00 0x05 0x03 0x00 0x00
    ∷ glyph 0x00 0x1c 0x22 0x41 0x00
    ∷ glyph 0x00 0x41 0x22 0x1c 0x00
    ∷ glyph 0x08 0x2a 0x1c 0x2a 0x08
    ∷ glyph 0x08 0x08 0x3e 0x08 0x08
    ∷ glyph 0x00 0x50 0x30 0x00 0x00
    ∷ glyph 0x08 0x08 0x08 0x08 0x08
    ∷ glyph 0x00 0x60 0x60 0x00 0x00
    ∷ glyph 0x20 0x10 0x08 0x04 0x02
    ∷ glyph 0x3e 0x51 0x49 0x45 0x3e
    ∷ glyph 0x00 0x42 0x7f 0x40 0x00
    ∷ glyph 0x42 0x61 0x51 0x49 0x46
    ∷ glyph 0x21 0x41 0x45 0x4b 0x31
    ∷ glyph 0x18 0x14 0x12 0x7f 0x10
    ∷ glyph 0x27 0x45 0x45 0x45 0x39
    ∷ glyph 0x3c 0x4a 0x49 0x49 0x30
    ∷ glyph 0x01 0x71 0x09 0x05 0x03
    ∷ glyph 0x36 0x49 0x49 0x49 0x36
    ∷ glyph 0x06 0x49 0x49 0x29 0x1e
    ∷ glyph 0x00 0x36 0x36 0x00 0x00
    ∷ glyph 0x00 0x56 0x36 0x00 0x00
    ∷ glyph 0x08 0x14 0x22 0x41 0x00
    ∷ glyph 0x14 0x14 0x14 0x14 0x14
    ∷ glyph 0x00 0x41 0x22 0x14 0x08
    ∷ glyph 0x02 0x01 0x51 0x09 0x06
    ∷ glyph 0x32 0x49 0x79 0x41 0x3e
    ∷ glyph 0x7e 0x11 0x11 0x11 0x7e
    ∷ glyph 0x7f 0x49 0x49 0x49 0x36
    ∷ glyph 0x3e 0x41 0x41 0x41 0x22
    ∷ glyph 0x7f 0x41 0x41 0x22 0x1c
    ∷ glyph 0x7f 0x49 0x49 0x49 0x41
    ∷ glyph 0x7f 0x09 0x09 0x09 0x01
    ∷ glyph 0x3e 0x41 0x49 0x49 0x7a
    ∷ glyph 0x7f 0x08 0x08 0x08 0x7f
    ∷ glyph 0x00 0x41 0x7f 0x41 0x00
    ∷ glyph 0x20 0x40 0x41 0x3f 0x01
    ∷ glyph 0x7f 0x08 0x14 0x22 0x41
    ∷ glyph 0x7f 0x40 0x40 0x40 0x40
    ∷ glyph 0x7f 0x02 0x0c 0x02 0x7f
    ∷ glyph 0x7f 0x04 0x08 0x10 0x7f
    ∷ glyph 0x3e 0x41 0x41 0x41 0x3e
    ∷ glyph 0x7f 0x09 0x09 0x09 0x06
    ∷ glyph 0x3e 0x41 0x51 0x21 0x5e
    ∷ glyph 0x7f 0x09 0x19 0x29 0x46
    ∷ glyph 0x46 0x49 0x49 0x49 0x31
    ∷ glyph 0x01 0x01 0x7f 0x01 0x01
    ∷ glyph 0x3f 0x40 0x40 0x40 0x3f
    ∷ glyph 0x1f 0x20 0x40 0x20 0x1f
    ∷ glyph 0x3f 0x40 0x38 0x40 0x3f
    ∷ glyph 0x63 0x14 0x08 0x14 0x63
    ∷ glyph 0x07 0x08 0x70 0x08 0x07
    ∷ glyph 0x61 0x51 0x49 0x45 0x43
    ∷ glyph 0x00 0x7f 0x41 0x41 0x00
    ∷ glyph 0x02 0x04 0x08 0x10 0x20
    ∷ glyph 0x00 0x41 0x41 0x7f 0x00
    ∷ glyph 0x04 0x02 0x01 0x02 0x04
    ∷ glyph 0x40 0x40 0x40 0x40 0x40
    ∷ glyph 0x00 0x01 0x02 0x04 0x00
    ∷ glyph 0x20 0x54 0x54 0x54 0x78
    ∷ glyph 0x7f 0x48 0x44 0x44 0x38
    ∷ glyph 0x38 0x44 0x44 0x44 0x20
    ∷ glyph 0x38 0x44 0x44 0x48 0x7f
    ∷ glyph 0x38 0x54 0x54 0x54 0x18
    ∷ glyph 0x08 0x7e 0x09 0x01 0x02
    ∷ glyph 0x0c 0x52 0x52 0x52 0x3e
    ∷ glyph 0x7f 0x08 0x04 0x04 0x78
    ∷ glyph 0x00 0x44 0x7d 0x40 0x00
    ∷ glyph 0x20 0x40 0x44 0x3d 0x00
    ∷ glyph 0x7f 0x10 0x28 0x44 0x00
    ∷ glyph 0x00 0x41 0x7f 0x40 0x00
    ∷ glyph 0x7c 0x04 0x18 0x04 0x78
    ∷ glyph 0x7c 0x08 0x04 0x04 0x78
    ∷ glyph 0x38 0x44 0x44 0x44 0x38
    ∷ glyph 0x7c 0x14 0x14 0x14 0x08
    ∷ glyph 0x08 0x14 0x14 0x18 0x7c
    ∷ glyph 0x7c 0x08 0x04 0x04 0x08
    ∷ glyph 0x48 0x54 0x54 0x54 0x20
    ∷ glyph 0x04 0x3f 0x44 0x40 0x20
    ∷ glyph 0x3c 0x40 0x40 0x40 0x7c
    ∷ glyph 0x1c 0x20 0x40 0x20 0x1c
    ∷ glyph 0x3c 0x40 0x30 0x40 0x3c
    ∷ glyph 0x44 0x28 0x10 0x28 0x44
    ∷ glyph 0x0c 0x50 0x50 0x50 0x3c
    ∷ glyph 0x44 0x64 0x54 0x4c 0x44
    ∷ glyph 0x00 0x08 0x36 0x41 0x00
    ∷ glyph 0x00 0x00 0x7f 0x00 0x00
    ∷ glyph 0x00 0x41 0x36 0x08 0x00
    ∷ glyph 0x08 0x08 0x2a 0x1c 0x08
    ∷ glyph 0x08 0x1c 0x2a 0x08 0x08
    ∷ []
