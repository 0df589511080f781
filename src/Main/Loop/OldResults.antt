-- ===== src/Main/Loop/OldResults.antt =====
-- What the display shows right after a button has started a round: Ui, BootDiag and Oled together.
use msx_pulse.Shared.{ℕ, ◌≡◌, refl, true, leb, sub32, List, ap, ◌∙◌, Bool-cases, inl, inr}
use msx_pulse.BootDiag.{DiagResult, Phase, done, pass_begin, start}
use msx_pulse.BootDiag.Running.{start-phase, start-result, tick-start}
use msx_pulse.Ui.{BtnEvent, Ui, progress, results, handle_btn, render}
use msx_pulse.Ui.Diag.{render_results}
use msx_pulse.Ui.Render.{heartbeat, ui_render, oled_refresh, results_view}
use msx_pulse.Ui.Round.{handle_btn-Starts, render_progress, render_first_page}
use msx_pulse.Oled.{fb_clear, fb_putglyph}
use msx_pulse.Buttons.{is_none}
use msx_pulse.Console.{disp_monitoring}
use msx_pulse.AdcRails.Volts.{Floats}
use msx_pulse.Main.Loop.{Core0, Input, press, step_oled, step_diag}

module _ {V : Type 0} (fixed : (width precision : ℕ) → V → List ℕ) (floats : Floats V) where
  press-starts :
      (e : BtnEvent) (s : Core0 fixed floats)
      → s.world.display ≡ disp_monitoring
      → (handle_btn e s.ui).1 ≡ true
      → press fixed floats e s ≡ record s {
        ui = (handle_btn e s.ui).0;
        world = record s.world { diag = start s.world.diag };
      }
  press-starts e s shows starts = elim (Bool-cases (is_none e)) [
    | inl n ↦ rw (shows, starts, n) refl
    | inr n ↦ rw (shows, starts, n) refl
  ]

  refreshed :
      (i : Input fixed floats) (t : Core0 fixed floats)
      → t.world.display ≡ disp_monitoring
      → i.oled_present ≡ true
      → leb 100 (sub32 i.now_ms t.last_oled_ms) ≡ true
      → ((step_oled fixed floats i t).fb
          ≡ (ui_render fixed i.oled_now_ms t.rail_snap i.snap t.world.diag t.ui fb_clear).1)
        × ((step_oled fixed floats i t).ui ≡ render t.world.diag.phase t.ui)
  unfolding step_oled oled_refresh ui_render
  refreshed i t shows present due = rw (due, present, shows) (refl, refl)

  -- On the page of the menu, if a button starts a round while the round before is in its done
  -- phase, and the display is present and due for a refresh in the same turn of the loop, with no
  -- command in between, the first page of the results of the round before is drawn. Once the tick
  -- of the next turn has begun the round, a refresh that had not yet switched the view shows the
  -- progress.
  pub old_results_lem :
      (e : BtnEvent) (i j : Input fixed floats) (s : Core0 fixed floats)
      → s.world.display ≡ disp_monitoring
      → s.world.diag.phase ≡ done
      → (handle_btn e s.ui).1 ≡ true
      → i.oled_present ≡ true
      → leb 100 (sub32 i.now_ms s.last_oled_ms) ≡ true
      → let pressed = press fixed floats e s in
        ((step_oled fixed floats i pressed).fb
          ≡ render_results 0 s.world.diag.result
              (fb_putglyph 0 0 (heartbeat i.oled_now_ms) fb_clear))
        × ((step_oled fixed floats i (step_diag fixed floats j pressed).0).ui.diag_view ≡ progress)
  unfolding step_diag
  old_results_lem e i j s shows over starts present due =
      let u = (handle_btn e s.ui).0 in
      let d = start s.world.diag in
      let in_progress = handle_btn-Starts e s.ui starts in
      let still : d.phase ≡ done = start-phase s.world.diag ∙ over in
      let begun = press-starts e s shows starts in
      let t : Core0 fixed floats = record s { ui = u; world = record s.world { diag = d } } in
      let switched : (render d.phase u).diag_view ≡ results =
        ap (λ (p : Phase). (render p u).diag_view) still ∙ render_progress u done in_progress in
      let first : (render d.phase u).diag_page ≡ 0 =
        ap (λ (p : Phase). (render p u).diag_page) still ∙ render_first_page u in_progress in
      let (ticking, _) = step_diag fixed floats j t in
      (
        ap (λ (c : Core0 fixed floats). (step_oled fixed floats i c).fb) begun
            ∙ (refreshed i t shows present due).0
            ∙ results_view fixed i.oled_now_ms s.rail_snap i.snap d u fb_clear switched
            ∙ ap
                (λ (p : ℕ).
                  render_results p d.result (fb_putglyph 0 0 (heartbeat i.oled_now_ms) fb_clear))
                first
            ∙ ap
                (λ (r : DiagResult).
                  render_results 0 r (fb_putglyph 0 0 (heartbeat i.oled_now_ms) fb_clear))
                (start-result s.world.diag),
        ap
              (λ (c : Core0 fixed floats).
                (step_oled fixed floats i (step_diag fixed floats j c).0).ui.diag_view)
              begun
            ∙ ap (λ (v : Ui). v.diag_view) (refreshed i ticking shows present due).1
            ∙ ap (λ (p : Phase). (render p u).diag_view)
                (tick-start j.now_ms j.snap s.world.diag over)
            ∙ render_progress u pass_begin in_progress,
      )
