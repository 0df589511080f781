-- ===== src/Ui.antt =====
-- src/firmware/ui.h and ui.c: the menu of pages, settings and the views of a diagnostic round. The
-- drawing is in the modules below. The statics are a record; the button events are those of buttons.h.
pub mod Menu
pub mod Round
pub mod Results
pub mod Wrap
pub mod Pages
pub mod Diag
pub mod Render
mod Tests
use msx_pulse.Shared.{
  ℕ, zero, suc, ◌+◌, ◌-◌, ◌<◌, Bool, true, false, not, ◌&&◌, ◌==◌, ltb, if◌then◌else◌, List, [],
  ◌∷◌, get_or,
}
use msx_pulse.BootDiag
use msx_pulse.BootDiag.{Phase, done}

-- `btn_event_t`
pub data BtnEvent : Type 0 where
  btn_none btn_up btn_down btn_select : BtnEvent

-- `ui_level_t`
pub data Level : Type 0 where
  main detail settings : Level

-- `ui_diag_view_t`
pub data DiagView : Type 0 where
  no_view progress results : DiagView

abbrev pub n_diag_pages : ℕ
n_diag_pages = 6

-- `n_pages` of `carousel`
abbrev pub carousel_pages : ℕ
carousel_pages = 5

-- `is_back` of `settings_rows`
abbrev pub settings_rows : List Bool
settings_rows = false ∷ true ∷ []

abbrev pub n_settings_rows : ℕ
n_settings_rows = 2

-- `n_pages` is that of `s_active_pages`.
pub record Ui : Type 0 where
  pub level : Level
  pub page_idx : ℕ
  pub selector_idx : ℕ
  pub power_fault : Bool
  pub n_pages : ℕ
  pub diag_view : DiagView
  pub diag_page : ℕ

unfoldable pub init : Ui → Ui
init u = record u {
  n_pages = carousel_pages;
  level = main;
  page_idx = 0;
  power_fault = false;
  diag_view = no_view;
  diag_page = 0;
}

abbrev pub level_of : ℕ → Level
level_of page = if page == 0 then main else detail

-- The parts of `ui_handle_btn`: in the results of a round, in the settings, and on the pages. With
-- the state they return whether `boot_diag_start` was called.
unfoldable pub on_results : BtnEvent → Ui → Ui × Bool
on_results btn_down u = (
  if ltb (u.diag_page + 1) n_diag_pages then record u { diag_page = u.diag_page + 1 } else u,
  false,
)
on_results btn_up u =
    (if ltb 0 u.diag_page then record u { diag_page = u.diag_page - 1 } else u, false)
on_results btn_select u = (record u { diag_view = no_view; level = main; page_idx = 0 }, false)
on_results btn_none u = (u, false)

-- A row beyond the table, where C would read past its end, counts as one that does not go back.
unfoldable pub on_settings : BtnEvent → Ui → Ui × Bool
on_settings btn_up u =
    (if ltb 0 u.selector_idx then record u { selector_idx = u.selector_idx - 1 } else u, false)
on_settings btn_down u = (
  if ltb (u.selector_idx + 1) n_settings_rows
      then record u { selector_idx = u.selector_idx + 1 }
      else u,
  false,
)
on_settings btn_select u =
    if get_or settings_rows u.selector_idx false
    then (record u { level = main }, false)
    else (record u { diag_view = progress; level = main }, true)
on_settings btn_none u = (u, false)

abbrev is_main : Level → Bool
is_main main = true
is_main _ = false

unfoldable pub on_pages : BtnEvent → Ui → Ui × Bool
on_pages btn_down u = (
  if ltb (u.page_idx + 1) u.n_pages
      then record u { page_idx = u.page_idx + 1; level = level_of (u.page_idx + 1) }
      else u,
  false,
)
on_pages btn_up u = (
  if ltb 0 u.page_idx
      then record u { page_idx = u.page_idx - 1; level = level_of (u.page_idx - 1) }
      else u,
  false,
)
on_pages btn_select u = (
  if is_main u.level then record u { selector_idx = n_settings_rows - 1; level = settings } else u,
  false,
)
on_pages btn_none u = (u, false)

abbrev pub on_level : Level → BtnEvent → Ui → Ui × Bool
on_level settings e u = on_settings e u
on_level main e u = on_pages e u
on_level detail e u = on_pages e u

abbrev pub on_view : DiagView → BtnEvent → Ui → Ui × Bool
on_view progress e u = (u, false)
on_view results e u = on_results e u
on_view no_view e u = on_level u.level e u

-- `ui_handle_btn`
unfoldable pub handle_btn : BtnEvent → Ui → Ui × Bool
handle_btn btn_none u = (u, false)
handle_btn btn_up u = on_view u.diag_view btn_up u
handle_btn btn_down u = on_view u.diag_view btn_down u
handle_btn btn_select u = on_view u.diag_view btn_select u

abbrev pub is_progress : DiagView → Bool
is_progress progress = true
is_progress _ = false

abbrev pub is_done : Phase → Bool
is_done done = true
is_done _ = false

-- What `ui_render` changes in the state, `phase` being that of `boot_diag_phase`.
unfoldable pub render : Phase → Ui → Ui
render phase u =
    if is_progress u.diag_view && is_done phase
    then record u { diag_view = results; diag_page = 0 }
    else u

unfoldable pub notify_power_fault : Bool → Ui → Ui
notify_power_fault faulted u = record u { power_fault = faulted }
