-- ===== src/Buttons/Hold/Again.antt =====
-- A press of SELECT fires once, however long it lasts: polls from the start on.
use msx_pulse.Shared.{ℕ, ◌+◌, ◌≤◌, ◌<◌, ◌^◌, ◌≡◌, true, false}
use msx_pulse.Ui.{BtnEvent, btn_select}
use msx_pulse.Buttons.{Btn, Buttons, same_event, debounce_ms}
use msx_pulse.Buttons.Phantom.{Poll}

-- SELECT is down, debounced from `ready` on, and has fired.
record Fired (ready : ℕ) (b : Btn) : Type 0 where
  down : b.prev_raw ≡ false
  since : b.last_change_ms + debounce_ms ≤ ready
  noted : b.stable ≡ false
  once : b.hold_fired ≡ true
  nothing_pending : b.pending_short ≡ false

-- SELECT stays so, and the event is not its own.
record Spent (ready : ℕ) (r : Buttons × BtnEvent) : Type 0 where
  fired : Fired ready r.0.sel
  other : same_event r.1 btn_select ≡ false

-- A poll while SELECT is down, at `ready` or later, and before the clock wraps.
pub record StillDown (ready : ℕ) (q : Poll) : Type 0 where
  pub low : q.1.sel_raw ≡ false
  pub later : ready ≤ q.0
  pub fits : q.0 < 2 ^ 32
