-- ===== src/Ui/Menu.antt =====
-- The states the menu can be in.
use msx_pulse.Shared.{◌<◌, ◌≡◌, refl, ap, Bool, true, false, if◌then◌else◌, arith, List, [], ◌∷◌}
use msx_pulse.BootDiag.{Phase}
use msx_pulse.Ui.{
  BtnEvent, btn_none, btn_up, btn_down, btn_select, Level, main, detail, settings, DiagView,
  no_view, progress, results, Ui, init, level_of, on_results, on_settings, on_pages, on_level,
  on_view, handle_btn, render, notify_power_fault, n_diag_pages, n_settings_rows, carousel_pages,
}

abbrev pub is_settings : Level → Bool
is_settings settings = true
is_settings _ = false

abbrev pub shows_round : DiagView → Bool
shows_round no_view = false
shows_round _ = true

-- Every index is in range; outside the settings the level says whether the page is the first; the
-- settings are entered only from the first page, and a round is shown only over it.
pub record IsUi (u : Ui) : Type 0 where
  pub pages : u.n_pages ≡ carousel_pages
  pub page : u.page_idx < carousel_pages
  pub selector : u.selector_idx < n_settings_rows
  pub diag_page : u.diag_page < n_diag_pages
  pub level : u.level ≡ (if is_settings u.level then settings else level_of u.page_idx)
  pub settings_first : is_settings u.level ≡ true → u.page_idx ≡ 0
  pub round_first : shows_round u.diag_view ≡ true → u.level ≡ main

on_results-IsUi :
    (e : BtnEvent) (u : Ui) → shows_round u.diag_view ≡ true → IsUi u → IsUi (on_results e u).0
unfolding on_results
on_results-IsUi btn_none u s v = v
on_results-IsUi btn_up u s v = ground arith
on_results-IsUi btn_down u s v = ground arith
on_results-IsUi btn_select u s v = ground arith

on_settings-IsUi :
    (e : BtnEvent) (u : Ui)
    → u.level ≡ settings
    → u.diag_view ≡ no_view
    → IsUi u
    → IsUi (on_settings e u).0
unfolding on_settings
on_settings-IsUi btn_none u l n v = v
on_settings-IsUi btn_up u l n v = ground arith
on_settings-IsUi btn_down u l n v = ground arith
on_settings-IsUi btn_select u l n v = ground arith

on_pages-IsUi :
    (e : BtnEvent) (u : Ui)
    → is_settings u.level ≡ false
    → u.diag_view ≡ no_view
    → IsUi u
    → IsUi (on_pages e u).0
unfolding on_pages
on_pages-IsUi btn_none u l n v = v
on_pages-IsUi btn_up u l n v = ground arith
on_pages-IsUi btn_down u l n v = ground arith
on_pages-IsUi btn_select u l n v = ground arith

on_level-IsUi :
    (k : Level) (e : BtnEvent) (u : Ui)
    → u.level ≡ k
    → u.diag_view ≡ no_view
    → IsUi u
    → IsUi (on_level k e u).0
on_level-IsUi settings e u l n v = on_settings-IsUi e u l n v
on_level-IsUi main e u l n v = on_pages-IsUi e u (ap is_settings l) n v
on_level-IsUi detail e u l n v = on_pages-IsUi e u (ap is_settings l) n v

on_view-IsUi :
    (k : DiagView) (e : BtnEvent) (u : Ui) → u.diag_view ≡ k → IsUi u → IsUi (on_view k e u).0
on_view-IsUi progress e u n v = v
on_view-IsUi results e u n v = on_results-IsUi e u (ap shows_round n) v
on_view-IsUi no_view e u n v = on_level-IsUi u.level e u refl n v

pub handle_btn-IsUi : (e : BtnEvent) (u : Ui) → IsUi u → IsUi (handle_btn e u).0
unfolding handle_btn
handle_btn-IsUi btn_none u v = v
handle_btn-IsUi btn_up u v = on_view-IsUi u.diag_view btn_up u refl v
handle_btn-IsUi btn_down u v = on_view-IsUi u.diag_view btn_down u refl v
handle_btn-IsUi btn_select u v = on_view-IsUi u.diag_view btn_select u refl v

pub render-IsUi : (phase : Phase) (u : Ui) → IsUi u → IsUi (render phase u)
unfolding render
render-IsUi phase u v = ground arith

-- What the main loop does to the menu.
pub data Event : Type 0 where
  button : BtnEvent → Event
  refresh : Phase → Event
  power : Bool → Event

unfoldable pub apply : Event → Ui → Ui
apply (button e) u = (handle_btn e u).0
apply (refresh phase) u = render phase u
apply (power faulted) u = notify_power_fault faulted u

unfoldable pub apply_all : List Event → Ui → Ui
apply_all [] u = u
apply_all (e ∷ es) u = apply_all es (apply e u)

pub apply-IsUi : (e : Event) (u : Ui) → IsUi u → IsUi (apply e u)
unfolding apply notify_power_fault
apply-IsUi (button e) u v = handle_btn-IsUi e u v
apply-IsUi (refresh phase) u v = render-IsUi phase u v
apply-IsUi (power faulted) u v = record {
  pages = v.pages;
  page = v.page;
  selector = v.selector;
  diag_page = v.diag_page;
  level = v.level;
  settings_first = v.settings_first;
  round_first = v.round_first;
}

apply_all-IsUi : (es : List Event) (u : Ui) → IsUi u → IsUi (apply_all es u)
unfolding apply_all
apply_all-IsUi [] u v = v
apply_all-IsUi (e ∷ es) u v = apply_all-IsUi es (apply e u) (apply-IsUi e u v)

-- From a start with the settings' selector on a row that exists, after any buttons, refreshes and
-- power reports: every index is in range (no page, row or results page is read beyond its table),
-- outside the settings the level says whether the page is the first, the settings are entered
-- only from the first page, and a round is shown only over it.
pub menu_lem :
    (u : Ui) (es : List Event) → u.selector_idx < n_settings_rows → IsUi (apply_all es (init u))
unfolding init
menu_lem u es s = apply_all-IsUi es _ (record {
  pages = refl;
  page = omega arith;
  selector = s;
  diag_page = omega arith;
  level = refl;
  settings_first = λ p. cc;
  round_first = λ p. cc;
})
