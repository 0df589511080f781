-- ===== src/Buttons.antt =====
-- src/firmware/buttons.h and buttons.c: debouncing of the three buttons, the combination of two, and
-- the hold of SELECT. The events are those of Ui. `btns[0]`, `btns[1]` and `btns[2]` are the fields
-- `up`, `down` and `sel`, whose events do not change after `buttons_init`; the loops over them are
-- written out.
pub mod Phantom
pub mod Hold
pub mod PairView
pub mod PairHold
pub mod Once
mod Tests
use msx_pulse.Shared.{
  ℕ, Bool, true, false, not, ◌&&◌, ◌||◌, ◌==◌, ltb, leb, if◌then◌else◌, sub32, Option, none, some,
}
use msx_pulse.Ui.{BtnEvent, btn_none, btn_up, btn_down, btn_select}

abbrev pub debounce_ms : ℕ
debounce_ms = 20

abbrev pub hold_ms : ℕ
hold_ms = 500

abbrev pub combo_window_ms : ℕ
combo_window_ms = 100

abbrev pub select_hold_ms : ℕ
select_hold_ms = 200

-- `btn_state_t`, less the pin and the event. A level is `true` when the button is released.
pub record Btn : Type 0 where
  pub last_change_ms : ℕ
  pub press_start_ms : ℕ
  pub stable : Bool
  pub prev_raw : Bool
  pub held_reported : Bool
  pub pending_short : Bool
  pub armed : Bool
  pub hold_fired : Bool

-- `g_combo`
pub record Combo : Type 0 where
  pub a : BtnEvent
  pub b : BtnEvent
  pub combo_hold_ms : ℕ
  pub both_pressed_since_ms : ℕ
  pub intent_active : Bool
  pub fired : Bool
  pub consumed : Bool

pub record Buttons : Type 0 where
  pub up : Btn
  pub down : Btn
  pub sel : Btn
  pub combo : Combo

abbrev init_btn : Bool → Btn → Btn
init_btn starts_armed b = record b {
  stable = true;
  prev_raw = true;
  last_change_ms = 0;
  held_reported = false;
  pending_short = false;
  hold_fired = false;
  armed = starts_armed;
}

abbrev with_combo : BtnEvent → BtnEvent → ℕ → Combo → Combo
with_combo a b hold c = record c {
  a = a;
  b = b;
  combo_hold_ms = hold;
  intent_active = false;
  fired = false;
  consumed = true;
}

-- `buttons_init`
unfoldable pub init : Buttons → Buttons
init s = record {
  up = init_btn true s.up;
  down = init_btn true s.down;
  sel = init_btn false s.sel;
  combo = with_combo btn_none btn_none 0 s.combo;
}

unfoldable pub set_combo : BtnEvent → BtnEvent → ℕ → Buttons → Buttons
set_combo a b hold s = record s { combo = with_combo a b hold s.combo }

unfoldable pub combo_check : Buttons → Buttons × Bool
combo_check s =
    if s.combo.fired && not s.combo.consumed
    then (record s { combo = record s.combo { consumed = true } }, true)
    else (s, false)

abbrev pub same_event : BtnEvent → BtnEvent → Bool
same_event btn_none btn_none = true
same_event btn_up btn_up = true
same_event btn_down btn_down = true
same_event btn_select btn_select = true
same_event _ _ = false

abbrev pub is_combo_btn : BtnEvent → Combo → Bool
is_combo_btn e c = ltb 0 c.combo_hold_ms && (same_event e c.a || same_event e c.b)

abbrev pub is_debounced_pressed : ℕ → Btn → Bool
is_debounced_pressed now_ms b = not b.prev_raw && leb debounce_ms (sub32 now_ms b.last_change_ms)

abbrev same_level : Bool → Bool → Bool
same_level true true = true
same_level false false = true
same_level _ _ = false

-- Pass 1 of `buttons_poll` for one button: its level is taken in and may arm it.
unfoldable pub take_level : ℕ → Bool → Btn → Btn
take_level now_ms raw b =
    let changed =
      if same_level raw b.prev_raw
      then b
      else record b { prev_raw = raw; last_change_ms = now_ms; held_reported = false } in
    if changed.prev_raw && leb debounce_ms (sub32 now_ms changed.last_change_ms)
    then record changed { armed = true }
    else changed

-- Then a press or a release is noted; `true` if the poll ends with the button's event.
unfoldable pub note_press : ℕ → BtnEvent → Combo → Btn → Btn × Bool
note_press now_ms event c b =
    let pressed = is_debounced_pressed now_ms b in
    let begun = record b { stable = false; press_start_ms = now_ms; hold_fired = false } in
    if pressed && b.stable && b.armed
    then (if is_combo_btn event c
        then (record begun { pending_short = true }, false)
        else (begun, not (same_event event btn_select)))
    else if not pressed
    then (record b { stable = true; pending_short = false }, false)
    else (b, false)

unfoldable pub sense : ℕ → Bool → BtnEvent → Combo → Btn → Btn × Bool
sense now_ms raw event c b = note_press now_ms event c (take_level now_ms raw b)

pub record Levels : Type 0 where
  pub up_raw : Bool
  pub down_raw : Bool
  pub sel_raw : Bool

-- Pass 1. A button that ends the poll keeps those after it from being read.
unfoldable pub sense_all : ℕ → Levels → Buttons → Buttons × BtnEvent
sense_all now_ms raw s =
    let up = sense now_ms raw.up_raw btn_up s.combo s.up in
    let down = sense now_ms raw.down_raw btn_down s.combo s.down in
    let sel = sense now_ms raw.sel_raw btn_select s.combo s.sel in
    if up.1
    then (record s { up = up.0 }, btn_up)
    else if down.1
    then (record s { up = up.0; down = down.0 }, btn_down)
    else (
      record s { up = up.0; down = down.0; sel = sel.0 },
      if sel.1 then btn_select else btn_none,
    )

abbrev pub is_none : BtnEvent → Bool
is_none e = same_event e btn_none

-- `find_btn`, and whether the button it finds is down.
abbrev pub event_pressed : ℕ → BtnEvent → Buttons → Bool
event_pressed now_ms btn_none s = false
event_pressed now_ms btn_up s = is_debounced_pressed now_ms s.up
event_pressed now_ms btn_down s = is_debounced_pressed now_ms s.down
event_pressed now_ms btn_select s = is_debounced_pressed now_ms s.sel

abbrev pub drop_short : BtnEvent → Buttons → Buttons
drop_short btn_none s = s
drop_short btn_up s = record s { up = record s.up { pending_short = false } }
drop_short btn_down s = record s { down = record s.down { pending_short = false } }
drop_short btn_select s = record s { sel = record s.sel { pending_short = false } }

-- What pass 2 does to `g_combo` while both buttons are down.
unfoldable pub hold_combo : ℕ → Combo → Combo
hold_combo now_ms c =
    let begun = if c.intent_active then c else record c {
      intent_active = true;
      both_pressed_since_ms = now_ms;
      fired = false;
      consumed = false;
    } in
    if not begun.fired && leb begun.combo_hold_ms (sub32 now_ms begun.both_pressed_since_ms)
    then record begun { fired = true; consumed = false }
    else begun

unfoldable pub combo_pass : ℕ → Buttons → Buttons
combo_pass now_ms s =
    if is_none s.combo.a || is_none s.combo.b || not (ltb 0 s.combo.combo_hold_ms)
    then s
    else if event_pressed now_ms s.combo.a s && event_pressed now_ms s.combo.b s
    then drop_short s.combo.a
        (drop_short s.combo.b (record s { combo = hold_combo now_ms s.combo }))
    else record s { combo = record s.combo { intent_active = false } }

abbrev short_due : ℕ → Btn → Bool
short_due now_ms b = b.pending_short && leb combo_window_ms (sub32 now_ms b.press_start_ms)

-- Pass 3.
unfoldable pub short_pass : ℕ → Buttons → Buttons × BtnEvent
short_pass now_ms s =
    if short_due now_ms s.up
    then (drop_short btn_up s, btn_up)
    else if short_due now_ms s.down
    then (drop_short btn_down s, btn_down)
    else if short_due now_ms s.sel
    then (drop_short btn_select s, btn_select)
    else (s, btn_none)

-- Pass 4: only SELECT's round of the loop can act.
unfoldable pub hold_pass : ℕ → Buttons → Buttons × BtnEvent
hold_pass now_ms s =
    if not s.sel.stable
      && not s.sel.hold_fired
      && is_debounced_pressed now_ms s.sel
      && leb select_hold_ms (sub32 now_ms s.sel.press_start_ms)
    then (record s { sel = record s.sel { hold_fired = true } }, btn_select)
    else (s, btn_none)

-- `buttons_poll`
unfoldable pub poll : ℕ → Levels → Buttons → Buttons × BtnEvent
poll now_ms raw s =
    let sensed = sense_all now_ms raw s in
    let short = short_pass now_ms (combo_pass now_ms sensed.0) in
    if not (is_none sensed.1)
    then sensed
    else if not (is_none short.1)
    then short
    else hold_pass now_ms short.0

-- `buttons_held` for one button: the button, and whether its hold is reported.
unfoldable pub held : ℕ → Btn → Btn × Bool
held now_ms b =
    if is_debounced_pressed now_ms b
      && leb hold_ms (sub32 now_ms b.press_start_ms)
      && not b.held_reported
    then (record b { held_reported = true }, true)
    else (b, false)
