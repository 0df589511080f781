-- ===== src/Oled/Text.antt =====
-- Where text is drawn.
use msx_pulse.Shared.{
  ℕ, zero, suc, ◌+◌, ◌-◌, ◌*◌, ◌≤◌, ◌<◌, ◌≡◌, refl, ap, ◌∙◌, Bool, ◌&&◌, ◌||◌, ◌==◌, ltb, leb,
  le→leb, if◌then◌else◌, List, [], ◌∷◌, get_or, length, arith, dec_lt, All, ◌/◌, ◌%◌,
}
use msx_pulse.Oled.Font.{font5x7}
use msx_pulse.Oled.{
  Framebuffer, store, copy_columns, fb_putglyph, glyph_of, fb_putchar, fb_puts, oled_pages, oled_w,
  char_w,
}

get_or-shift :
    (g : ℕ) (gs : List ℕ) (x col : ℕ)
    → x < col
    → get_or (g ∷ gs) (col - x) 0 ≡ get_or gs (col - (x + 1)) 0
get_or-shift g gs x col after = let e : col - x ≡ suc (col - (x + 1)) = omega arith in rw e refl

copy_columns_lem :
    (page x : ℕ) (gs : List ℕ) (fb : Framebuffer) (p col : ℕ)
    → copy_columns page x gs fb p col ≡ (
        if p == page && leb x col && ltb col (x + length gs)
        then get_or gs (col - x) 0
        else fb p col)
unfolding copy_columns
copy_columns_lem page x [] fb p col = ground arith
copy_columns_lem page x (g ∷ gs) fb p col =
    copy_columns_lem page (x + 1) gs (store page x g fb) p col ∙ elim (dec_lt x col) [
      | yes after ↦ ground (arith, get_or-shift g gs x col after)
      | no not_after ↦ first (dec_lt col x) not_after
    ]
  where
    first :
        Dec (col < x)
        → ¬ (x < col)
        → (if p == page && leb (x + 1) col && ltb col (x + 1 + length gs)
            then get_or gs (col - (x + 1)) 0
            else store page x g fb p col)
          ≡ (if p == page && leb x col && ltb col (x + suc (length gs))
              then get_or (g ∷ gs) (col - x) 0
              else fb p col)
    first (yes before) not_after = ground arith
    first (no not_before) not_after =
        let e : col ≡ x = omega arith in
        let zeroth : x - x ≡ 0 = omega arith in rw (e, zeroth) (ground arith)

All-get_or :
    (xs : List (List ℕ)) (n i : ℕ)
    → All (λ g. length g ≡ n) xs
    → i < length xs
    → length (get_or xs i []) ≡ n
All-get_or [] n i h small = absurd (omega arith)
All-get_or (x ∷ xs) n zero h small = h.0
All-get_or (x ∷ xs) n (suc i) h small = All-get_or xs n i h.1 (omega arith)

font5x7_wide : All (λ g. length g ≡ 5) font5x7
unfolding font5x7
font5x7_wide = ground arith

length-font5x7 : length font5x7 ≡ 96
unfolding font5x7
length-font5x7 = refl

get_or_beyond : (gs : List ℕ) (i : ℕ) → length gs ≤ i → get_or gs i 0 ≡ 0
get_or_beyond [] i h = refl
get_or_beyond (g ∷ gs) zero h = absurd (omega arith)
get_or_beyond (g ∷ gs) (suc i) h = get_or_beyond gs i (omega arith)

length-glyph_of : (c : ℕ) → length (glyph_of c) ≡ 5
unfolding glyph_of
length-glyph_of c =
    All-get_or font5x7 5 ((if ltb c 0x20 || ltb 0x7f c then 63 else c) - 0x20) font5x7_wide
      (ground (arith, length-font5x7))

fb_putchar_lem :
    (page x c : ℕ) (fb : Framebuffer) (p col : ℕ)
    → page < oled_pages
    → x + char_w ≤ oled_w
    → fb_putchar page x c fb p col ≡ (
        if p == page && leb x col && ltb col (x + char_w)
        then get_or (glyph_of c) (col - x) 0
        else fb p col)
unfolding fb_putchar fb_putglyph
fb_putchar_lem page x c fb p col on_page fits = ground (
  arith,
  copy_columns_lem page x (glyph_of c) fb p col,
  length-glyph_of c,
  get_or_beyond (glyph_of c) (col - x),
)

-- How many characters of a text of `n` fit from column `x` on.
abbrev pub shown : ℕ → ℕ → ℕ
shown x n = if leb (x + char_w * n) oled_w then n else (oled_w - x) / char_w

-- What a text drawn from column `x` on shows in a column.
abbrev pub cell : List ℕ → ℕ → ℕ → ℕ
cell s x col = get_or (glyph_of (get_or s ((col - x) / char_w) 0)) ((col - x) % char_w) 0

cell-first :
    (c : ℕ) (s : List ℕ) (x col : ℕ)
    → col < x + char_w
    → cell (c ∷ s) x col ≡ get_or (glyph_of c) (col - x) 0
cell-first c s x col before =
    let place : (col - x) / char_w ≡ 0 = omega arith in
    let offset : (col - x) % char_w ≡ col - x = omega arith in rw (place, offset) refl

cell-later :
    (c : ℕ) (s : List ℕ) (x col : ℕ)
    → x + char_w ≤ col
    → cell (c ∷ s) x col ≡ cell s (x + char_w) col
cell-later c s x col from =
    let place : (col - x) / char_w ≡ suc ((col - (x + char_w)) / char_w) = omega arith in
    let offset : (col - x) % char_w ≡ (col - (x + char_w)) % char_w = omega arith in
    rw (place, offset) refl

cell-split :
    (c : ℕ) (s : List ℕ) (x col : ℕ)
    → cell (c ∷ s) x col
      ≡ (if ltb col (x + char_w) then get_or (glyph_of c) (col - x) 0 else cell s (x + char_w) col)
cell-split c s x col = ground (arith, cell-first c s x col, cell-later c s x col)

-- Two neighbouring ranges of columns are one.
joined :
    (on : Bool) (x col n first later old : ℕ)
    → (if on && leb (x + char_w) col && ltb col (x + char_w + char_w * n)
        then later
        else (if on && leb x col && ltb col (x + char_w) then first else old))
      ≡ (if on && leb x col && ltb col (x + char_w * suc n)
          then (if ltb col (x + char_w) then first else later)
          else old)
joined on x col n first later old = ground arith

shown-more : (x n : ℕ) → x + char_w ≤ oled_w → shown x (suc n) ≡ suc (shown (x + char_w) n)
shown-more x n fits = ground arith

shown-none : (x n : ℕ) → oled_w < x + char_w → shown x (suc n) ≡ 0
shown-none x n full = ground arith

-- A text drawn on a page shows as many of its characters as fit before the right edge. The j-th of
-- them takes the six columns from `x + 6 * j` on, its glyph (that of `?` if the font has none) and
-- a gap; every other byte of the framebuffer stays.
pub fb_puts_lem :
    (page x : ℕ) (s : List ℕ) (fb : Framebuffer) (p col : ℕ)
    → page < oled_pages
    → fb_puts page x s fb p col ≡ (
        if p == page && leb x col && ltb col (x + char_w * shown x (length s))
        then cell s x col
        else fb p col)
unfolding fb_puts
fb_puts_lem page x [] fb p col on_page = ground arith
fb_puts_lem page x (c ∷ s) fb p col on_page = elim (dec_lt oled_w (x + char_w)) [
  | no fits ↦
      let n = shown (x + char_w) (length s) in
      let room : x + char_w ≤ oled_w = omega arith in
      rw (le→leb (x + char_w) oled_w room, shown-more x (length s) room, cell-split c s x col)
        (fb_puts_lem page (x + char_w) s (fb_putchar page x c fb) p col on_page
          ∙ ap
              (λ (t : ℕ).
                if p == page && leb (x + char_w) col && ltb col (x + char_w + char_w * n)
                then cell s (x + char_w) col
                else t)
              (fb_putchar_lem page x c fb p col on_page room)
          ∙ joined (p == page) x col n (get_or (glyph_of c) (col - x) 0) (cell s (x + char_w) col)
              (fb p col))
  | yes full ↦ ground (arith, shown-none x (length s) full)
]
