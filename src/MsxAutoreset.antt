-- ===== src/MsxAutoreset.antt =====
-- src/firmware/msx_autoreset.h and msx_autoreset.c: the latch that fires one reset pulse per power
-- cycle of the MSX. The two statics are a record.
pub mod Cycle
mod Tests
use msx_pulse.Shared.{ℕ, ◌+◌, ◌≤◌, ◌<◌, Bool, true, false, not, ◌&&◌, ◌||◌, ltb, leb, if◌then◌else◌}

-- `autoreset_action_t`
pub data Action : Type 0 where
  nothing fire_pulse park : Action

pub record Autoreset : Type 0 where
  pub present_count : ℕ
  pub fired : Bool

abbrev pub present_polls : ℕ
present_polls = 2

pub reset : Autoreset
reset = record { present_count = 0; fired = false }

unfoldable pub step : Bool → Autoreset → Autoreset × Action
unfolding reset
step msx_present s =
    let count =
      if ltb s.present_count present_polls then s.present_count + 1 else s.present_count in
    let was_active = ltb 0 s.present_count || s.fired in
    if msx_present
    then (if leb present_polls count && not s.fired
        then (record { present_count = count; fired = true }, fire_pulse)
        else (record s { present_count = count }, nothing))
    else (reset, if was_active then park else nothing)
