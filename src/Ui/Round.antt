-- ===== src/Ui/Round.antt =====
-- When a button starts a diagnostic round, and what is shown then.
use msx_pulse.Shared.{
  ℕ, zero, suc, ◌<◌, ◌≡◌, refl, Bool, true, false, not, ◌&&◌, ◌==◌, if◌then◌else◌, arith, get_or,
}
use msx_pulse.BootDiag.{Phase, done}
use msx_pulse.Ui.{
  BtnEvent, btn_none, btn_up, btn_down, btn_select, Level, main, detail, settings, DiagView,
  no_view, progress, results, Ui, on_results, on_settings, on_pages, on_level, on_view, handle_btn,
  render, n_settings_rows, settings_rows, is_done,
}
use msx_pulse.Ui.Menu.{IsUi, is_settings, shows_round}

abbrev pub is_select : BtnEvent → Bool
is_select btn_select = true
is_select _ = false

abbrev pub wants_round : BtnEvent → Ui → Bool
wants_round e u =
    is_select e && not (shows_round u.diag_view) && is_settings u.level && (u.selector_idx == 0)

row_lem : (i : ℕ) → i < n_settings_rows → get_or settings_rows i false ≡ not (i == 0)
row_lem zero h = refl
row_lem (suc zero) h = refl
row_lem (suc (suc i)) h = absurd (omega arith)

on_pages_quiet : (e : BtnEvent) (u : Ui) → (on_pages e u).1 ≡ false
unfolding on_pages
on_pages_quiet btn_none u = refl
on_pages_quiet btn_up u = refl
on_pages_quiet btn_down u = refl
on_pages_quiet btn_select u = refl

on_results_quiet : (e : BtnEvent) (u : Ui) → (on_results e u).1 ≡ false
unfolding on_results
on_results_quiet btn_none u = refl
on_results_quiet btn_up u = refl
on_results_quiet btn_down u = refl
on_results_quiet btn_select u = refl

on_level-wants_round :
    (k : Level) (e : BtnEvent) (u : Ui)
    → u.level ≡ k
    → u.diag_view ≡ no_view
    → u.selector_idx < n_settings_rows
    → (on_level k e u).1 ≡ wants_round e u
unfolding on_settings
on_level-wants_round settings btn_none u l n s = ground arith
on_level-wants_round settings btn_up u l n s = ground arith
on_level-wants_round settings btn_down u l n s = ground arith
on_level-wants_round settings btn_select u l n s =
    rw (row_lem u.selector_idx s, l, n) (ground arith)
on_level-wants_round main e u l n s = ground (arith, on_pages_quiet e u)
on_level-wants_round detail e u l n s = ground (arith, on_pages_quiet e u)

on_view-wants_round :
    (k : DiagView) (e : BtnEvent) (u : Ui)
    → u.diag_view ≡ k
    → u.selector_idx < n_settings_rows
    → (on_view k e u).1 ≡ wants_round e u
on_view-wants_round progress e u n s = ground arith
on_view-wants_round results e u n s = ground (arith, on_results_quiet e u)
on_view-wants_round no_view e u n s = on_level-wants_round u.level e u refl n s

-- A button starts a diagnostic round exactly if it is SELECT, on the first row of the settings, and
-- no round is shown.
pub starts_round_lem : (e : BtnEvent) (u : Ui) → IsUi u → (handle_btn e u).1 ≡ wants_round e u
unfolding handle_btn
starts_round_lem btn_none u v = refl
starts_round_lem btn_up u v = on_view-wants_round u.diag_view btn_up u refl v.selector
starts_round_lem btn_down u v = on_view-wants_round u.diag_view btn_down u refl v.selector
starts_round_lem btn_select u v = on_view-wants_round u.diag_view btn_select u refl v.selector

abbrev Starts : Ui × Bool → Type 0
Starts r = r.1 ≡ true → r.0.diag_view ≡ progress

on_settings-Starts : (e : BtnEvent) (u : Ui) → Starts (on_settings e u)
unfolding on_settings
on_settings-Starts btn_none u h = ground arith
on_settings-Starts btn_up u h = ground arith
on_settings-Starts btn_down u h = ground arith
on_settings-Starts btn_select u h = ground arith

on_level-Starts : (k : Level) (e : BtnEvent) (u : Ui) → Starts (on_level k e u)
on_level-Starts settings e u h = on_settings-Starts e u h
on_level-Starts main e u h = ground (arith, on_pages_quiet e u)
on_level-Starts detail e u h = ground (arith, on_pages_quiet e u)

on_view-Starts : (k : DiagView) (e : BtnEvent) (u : Ui) → Starts (on_view k e u)
on_view-Starts progress e u h = ground arith
on_view-Starts results e u h = ground (arith, on_results_quiet e u)
on_view-Starts no_view e u h = on_level-Starts u.level e u h

pub handle_btn-Starts : (e : BtnEvent) (u : Ui) → Starts (handle_btn e u)
unfolding handle_btn
handle_btn-Starts btn_none u h = ground arith
handle_btn-Starts btn_up u h = on_view-Starts u.diag_view btn_up u h
handle_btn-Starts btn_down u h = on_view-Starts u.diag_view btn_down u h
handle_btn-Starts btn_select u h = on_view-Starts u.diag_view btn_select u h

-- While the progress is shown, a refresh switches to the first page of the results in the done phase
-- only.
pub render_progress :
    (u : Ui) (phase : Phase)
    → u.diag_view ≡ progress
    → (render phase u).diag_view ≡ (if is_done phase then results else progress)
unfolding render
render_progress u phase p = ground arith

pub render_first_page : (u : Ui) → u.diag_view ≡ progress → (render done u).diag_page ≡ 0
unfolding render
render_first_page u p = ground arith
