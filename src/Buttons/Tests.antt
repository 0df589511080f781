-- ===== src/Buttons/Tests.antt =====
-- SELECT low at boot, SELECT held for long, and UP held with DOWN.
use msx_pulse.Shared.{ℕ, ◌≡◌, ◌+◌, max, arith, refl, true, false, List, [], ◌∷◌}
use msx_pulse.Ui.{btn_none, btn_up, btn_down, btn_select}
use msx_pulse.Buttons.{
  Btn, Buttons, init, set_combo, same_event, poll, sense_all, sense, take_level, note_press,
  combo_pass, hold_combo, debounce_ms, short_pass, hold_pass, combo_check,
}
use msx_pulse.Buttons.Phantom.{Poll, poll_all, phantom_lem}
use msx_pulse.Buttons.Once.{checked, Turn, Clock, pulses, fires_in, IsPressed, once_lem}

abbrev zero_btn : Btn
zero_btn = record {
  last_change_ms = 0;
  press_start_ms = 0;
  stable = false;
  prev_raw = false;
  held_reported = false;
  pending_short = false;
  armed = false;
  hold_fired = false;
}

-- The statics at power-up.
abbrev zeroed : Buttons
zeroed = record {
  up = zero_btn;
  down = zero_btn;
  sel = zero_btn;
  combo = record {
    a = btn_none;
    b = btn_none;
    combo_hold_ms = 0;
    both_pressed_since_ms = 0;
    intent_active = false;
    fired = false;
    consumed = false;
  };
}

abbrev low_select : ℕ → Poll
low_select t = (t, record { up_raw = true; down_raw = true; sel_raw = false })

phantom_example :
    same_event
      (poll 900
        (record { up_raw = true; down_raw = true; sel_raw = false })
        (poll_all
          (low_select 100 ∷ low_select 400 ∷ [])
          (set_combo btn_up btn_down 500 (init zeroed)))).1
      btn_select
    ≡ false
phantom_example =
    phantom_lem zeroed btn_up btn_down 500 (low_select 100 ∷ low_select 400 ∷ []) (low_select 900)
      (refl, (refl, tt)) refl

-- SELECT is released at first, then goes down at 1000 ms and stays down.
abbrev until_held : List Poll
until_held =
    (100, record { up_raw = true; down_raw = true; sel_raw = true })
    ∷ low_select 1000
    ∷ low_select 1020
    ∷ []

-- UP and DOWN go down at 1000 ms, for the combination of `main`.
abbrev both_down : Buttons
both_down = record zeroed {
  up = record zero_btn { armed = true; last_change_ms = 1000; stable = true };
  down = record zero_btn { armed = true; last_change_ms = 1000; stable = true };
  sel = record zero_btn { prev_raw = true; stable = true };
  combo = record zeroed.combo { a = btn_up; b = btn_down; combo_hold_ms = 500; consumed = true };
}

-- Four polls of one long press.
abbrev long_press : List Turn
long_press = (1100, true) ∷ (1400, true) ∷ (1700, true) ∷ (2400, false) ∷ []

fires_once : pulses long_press both_down ≡ 1
unfolding pulses checked combo_check poll sense_all sense take_level note_press combo_pass
    hold_combo short_pass hold_pass
fires_once = refl

both_down-IsPressed : IsPressed 500 both_down
both_down-IsPressed = record {
  up_low = refl;
  down_low = refl;
  a_up = refl;
  b_down = refl;
  hold_ms = refl;
  apart = refl;
  calm = refl;
}

long_press-Clock : Clock 1000 long_press
unfolding Clock
long_press-Clock = (
  omega arith,
  omega arith,
  (omega arith, omega arith, (omega arith, omega arith, (omega arith, omega arith, tt))),
)

once_example : pulses long_press both_down ≡ fires_in 500 (max 1000 1000 + debounce_ms) long_press
once_example =
    once_lem 500 1000 long_press both_down both_down-IsPressed (omega arith) (omega arith)
      (omega arith) long_press-Clock
