-- ===== src/Ui/Render.antt =====
-- `ui_render` of src/firmware/ui.c, and `oled_refresh` of oled.c with the two screens it draws itself.
use msx_pulse.Shared.{
  ℕ, zero, suc, ◌+◌, ◌*◌, ◌<◌, ◌≡◌, ◌/◌, ◌%◌, ◌==◌, if◌then◌else◌, Bool, List, [], ◌∷◌, Text, codes,
  snprintf, arith, leb, ltb, ◌&&◌, length, refl, ap, ◌∙◌,
}
use msx_pulse.BusProbe.{Snapshot}
use msx_pulse.BootDiag.{Diag, DiagResult}
use msx_pulse.Oled.{Framebuffer, fb_clear, fb_puts, fb_puts_centered, fb_putglyph, fb_hline, char_w}
use msx_pulse.Oled.Text.{fb_puts_lem, cell, shown}
use msx_pulse.Console.{Display, disp_boot, disp_monitoring, disp_firmware_update, disp_msx_health}
use msx_pulse.Console.Lines.{RailSnapshot}
use msx_pulse.Ui
use msx_pulse.Ui.{Ui, Level, main, detail, settings, DiagView, no_view, progress, results}
use msx_pulse.Ui.Pages.{
  status_text, render_settings, render_top_right_indicator, render_settings_footer, render_rails,
  render_clkrst, render_control, render_address, render_data,
}
use msx_pulse.Ui.Diag.{render_diag_progress, render_results, footer}

abbrev pub hb_full : List ℕ
hb_full = 0x1c ∷ 0x3e ∷ 0x3e ∷ 0x3e ∷ 0x1c ∷ []

abbrev pub hb_hollow : List ℕ
hb_hollow = 0x1c ∷ 0x22 ∷ 0x22 ∷ 0x22 ∷ 0x1c ∷ []

abbrev pub heartbeat : ℕ → List ℕ
heartbeat now_ms = if now_ms / 500 % 2 == 1 then hb_full else hb_hollow

-- `oled_refresh` before the menu is up, and while UPDATE hands over to the bootloader.
unfoldable pub render_boot : Framebuffer → Framebuffer
render_boot fb =
    fb_puts_centered 4 (codes "Initialising...") (fb_puts_centered 2 (codes "MSXDOC v0.1") fb)

unfoldable pub render_firmware_update : Framebuffer → Framebuffer
render_firmware_update fb =
    fb_puts_centered 5 (codes "USB BOOTLOADER")
      (fb_hline 3 (fb_puts_centered 2 (codes "FIRMWARE UPDATE") fb))

length-footer : length footer ≡ 20
unfolding codes
length-footer = refl

last_row_text :
    (before : Framebuffer) (col : ℕ)
    → col < 120
    → fb_puts 7 0 footer before 7 col ≡ cell footer 0 col
last_row_text before col left =
    fb_puts_lem 7 0 footer before 7 col (omega arith)
    ∙ ap
        (λ (n : ℕ).
          if leb 0 col && ltb col (0 + char_w * shown 0 n) then cell footer 0 col else before 7 col)
        length-footer
    ∙ ground arith

results_footer :
    (page : ℕ) (r : DiagResult) (fb : Framebuffer) (col : ℕ)
    → col < 120
    → render_results page r fb 7 col ≡ cell footer 0 col
unfolding render_results
results_footer page r fb col left = last_row_text _ col left

module _ {V : Type 0} (fixed : (width precision : ℕ) → V → Text) where
  -- `render` of `carousel_pages`; a page beyond the table, where C would call past its end, draws
  -- nothing.
  abbrev page_of : ℕ → RailSnapshot V → Snapshot → Framebuffer → Framebuffer
  page_of zero r s fb = render_rails fixed r fb
  page_of (suc zero) r s fb = render_clkrst s fb
  page_of (suc (suc zero)) r s fb = render_control s fb
  page_of (suc (suc (suc zero))) r s fb = render_address s fb
  page_of (suc (suc (suc (suc zero)))) r s fb = render_data s fb
  page_of _ r s fb = fb

  abbrev body : Level → Ui → RailSnapshot V → Snapshot → Framebuffer → Framebuffer
  body settings u r s fb = render_settings u fb
  body main u r s fb = page_of u.page_idx r s fb
  body detail u r s fb = page_of u.page_idx r s fb

  abbrev view : DiagView → Ui → RailSnapshot V → Snapshot → Diag → Framebuffer → Framebuffer
  view progress u r s d fb = render_diag_progress d (fb_puts 0 (2 * char_w) (codes "DIAGNOSTIC") fb)
  view results u r s d fb = render_results u.diag_page d.result fb
  view no_view u r s d fb =
      let named = fb_puts 0 (2 * char_w) (snprintf 16 (status_text r u)) fb in
      render_settings_footer u (body u.level u r s (render_top_right_indicator u named))

  -- `ui_render`; `s` is `s_probe`.
  unfoldable pub ui_render :
      (now_ms : ℕ) → RailSnapshot V → Snapshot → Diag → Ui → Framebuffer → Ui × Framebuffer
  ui_render now_ms r s d u fb =
      let u' = Ui.render d.phase u in
      (u', view u'.diag_view u' r s d (fb_putglyph 0 0 (heartbeat now_ms) fb))

  abbrev pub screen :
      Display → ℕ → RailSnapshot V → Snapshot → Diag → Ui → Framebuffer → Ui × Framebuffer
  screen disp_boot now_ms r s d u fb = (u, render_boot fb)
  screen disp_firmware_update now_ms r s d u fb = (u, render_firmware_update fb)
  screen disp_monitoring now_ms r s d u fb = ui_render now_ms r s d u fb
  screen disp_msx_health now_ms r s d u fb = ui_render now_ms r s d u fb

  -- `oled_refresh`, up to the transfer of the framebuffer to the display.
  unfoldable pub oled_refresh :
      (oled_present : Bool)
      → Display
      → (now_ms : ℕ) → RailSnapshot V
      → Snapshot
      → Diag
      → Ui
      → Framebuffer
      → Ui × Framebuffer
  unfolding ui_render render_boot render_firmware_update
  oled_refresh oled_present display now_ms r s d u fb =
      if oled_present then screen display now_ms r s d u fb_clear else (u, fb)

  pub results_view :
      (now_ms : ℕ) (r : RailSnapshot V) (s : Snapshot) (d : Diag) (u : Ui) (fb : Framebuffer)
      → (Ui.render d.phase u).diag_view ≡ results
      → (ui_render now_ms r s d u fb).1
        ≡ render_results
            (Ui.render d.phase u).diag_page
            d.result
            (fb_putglyph 0 0 (heartbeat now_ms) fb)
  unfolding ui_render
  results_view now_ms r s d u fb shows = rw shows refl

  -- Whenever the results of a round are shown, on every one of their pages, the 20 characters of the
  -- hint on the keys fill the first 120 columns of the last row: whatever the page drew there, such as
  -- the seventh row of the causes, is covered.
  pub footer_lem :
      (now_ms : ℕ) (r : RailSnapshot V) (s : Snapshot) (d : Diag) (u : Ui) (fb : Framebuffer)
      (col : ℕ)
      → (Ui.render d.phase u).diag_view ≡ results
      → col < 120
      → (ui_render now_ms r s d u fb).1 7 col ≡ cell footer 0 col
  footer_lem now_ms r s d u fb col shows left =
      ap (λ (drawn : Framebuffer). drawn 7 col) (results_view now_ms r s d u fb shows)
      ∙ results_footer (Ui.render d.phase u).diag_page d.result
          (fb_putglyph 0 0 (heartbeat now_ms) fb) col left
