-- ===== src/Buttons/Once.antt =====
-- The combination of UP and DOWN fires exactly once in a press that lasts.
use msx_pulse.Shared.{
  ℕ, ◌+◌, ◌≤◌, ◌<◌, ◌^◌, ◌≡◌, refl, Bool, false, not, ◌&&◌, ltb, leb, max, any, if◌then◌else◌, List,
  [], ◌∷◌, arith, inl, inr, Bool-cases,
}
use msx_pulse.Ui.{btn_up, btn_down}
use msx_pulse.Buttons.{Combo, Buttons, Levels, hold_combo, poll, combo_check, debounce_ms}
use msx_pulse.Buttons.PairView.{
  both_low, View, Pair, passed, pressed_at, poll-View, fires, seen, combo_check-View, pressed_late,
  pressed_early,
}
use msx_pulse.Buttons.PairHold.{
  Idle, Waiting, Spent, Idle-waits, Idle-begins, Waiting-goes_on, Waiting-fires, Spent-stays,
}

-- A poll with UP and DOWN down: the clock, and the level of SELECT.
abbrev pub Turn : Type 0
Turn = ℕ × Bool

-- The clock does not go back, and does not wrap.
unfoldable pub Clock : ℕ → List Turn → Type 0
Clock from [] = Unit
Clock from (p ∷ ps) = (from ≤ p.0) × (p.0 < 2 ^ 32) × Clock p.0 ps

-- One turn of the main loop: a poll, and whether the combination then fires.
unfoldable pub checked : ℕ → Levels → Buttons → Buttons × Bool
checked now_ms raw s = combo_check (poll now_ms raw s).0

-- How often the combination fires.
unfoldable pub pulses : List Turn → Buttons → ℕ
pulses [] s = 0
pulses (p ∷ ps) s =
    let turn = checked p.0 (both_low p.1) s in (if turn.1 then 1 else 0) + pulses ps turn.0

-- A level is debounced from `ready` on; from the first poll then, the press must last `hold`.
unfoldable pub fires_in : (hold ready : ℕ) → List Turn → ℕ
fires_in hold ready [] = 0
fires_in hold ready (p ∷ ps) =
    let rest = fires_in hold ready ps in
    if ltb p.0 ready then rest else if any (λ (q : Turn). leb (p.0 + hold) q.0) ps then 1 else 0

checked-View :
    (now hold lu ld : ℕ) (sel : Bool) (c : Combo) (s : Buttons)
    → View lu ld c s
    → Pair hold c
    → 0 < hold
    → View lu ld (seen (passed now (pressed_at now lu ld) c)) (checked now (both_low sel) s).0
      × ((checked now (both_low sel) s).1 ≡ fires (passed now (pressed_at now lu ld) c))
unfolding checked
checked-View now hold lu ld sel c s v p long =
    combo_check-View lu ld (passed now (pressed_at now lu ld) c) (poll now (both_low sel) s).0
      (poll-View now hold lu ld sel c s v p long)

-- A press that has fired fires no more.
spent_lem :
    (hold lu ld from : ℕ) (c : Combo) (ps : List Turn) (s : Buttons)
    → View lu ld c s
    → Spent hold c
    → 0 < hold
    → max lu ld + debounce_ms ≤ from
    → Clock from ps
    → pulses ps s ≡ 0
unfolding pulses Clock
spent_lem hold lu ld from c [] s v w long late clock = refl
spent_lem hold lu ld from c (p ∷ ps) s v w long late (later, fits, clock) =
    let (view, flag) = checked-View p.0 hold lu ld p.1 c s v w.pair long in
    let on = pressed_late p.0 lu ld (omega arith) fits in
    let (quiet, w') = Spent-stays p.0 hold c w in
    let c' = seen (hold_combo p.0 c) in
    rw (flag, on, quiet)
      (omega (
        arith,
        spent_lem hold lu ld p.0 c' ps (checked p.0 (both_low p.1) s).0 (rw on at view) w' long
            (omega arith) clock,
      ))

waiting_lem :
    (hold lu ld from since : ℕ) (c : Combo) (ps : List Turn) (s : Buttons)
    → View lu ld c s
    → Waiting hold since c
    → 0 < hold
    → max lu ld + debounce_ms ≤ from
    → since ≤ from
    → Clock from ps
    → pulses ps s ≡ (if any (λ (q : Turn). leb (since + hold) q.0) ps then 1 else 0)
unfolding pulses Clock
waiting_lem hold lu ld from since c [] s v w long late began clock = refl
waiting_lem hold lu ld from since c (p ∷ ps) s v w long late began (later, fits, clock) =
    let (view, flag) = checked-View p.0 hold lu ld p.1 c s v w.pair long in
    let on = pressed_late p.0 lu ld (omega arith) fits in
    let view' = rw on at view in
    let next = (checked p.0 (both_low p.1) s).0 in
    let c' = seen (hold_combo p.0 c) in
    elim (Bool-cases (leb (since + hold) p.0)) [
      | inl due ↦
          let (fired, w') = Waiting-fires p.0 hold since c w (ground arith) fits in
          rw (flag, on, fired, due)
            (omega (arith, spent_lem hold lu ld p.0 c' ps next view' w' long (omega arith) clock))
      | inr early ↦
          let (quiet, w') = Waiting-goes_on p.0 hold since c w (omega arith) (ground arith) fits in
          rw (flag, on, quiet, early)
            (omega (
              arith,
              waiting_lem hold lu ld p.0 since c' ps next view' w' long (omega arith) (omega arith)
                  clock,
            ))
    ]

idle_lem :
    (hold lu ld from : ℕ) (c : Combo) (ps : List Turn) (s : Buttons)
    → View lu ld c s
    → Idle hold c
    → 0 < hold
    → lu ≤ from
    → ld ≤ from
    → Clock from ps
    → pulses ps s ≡ fires_in hold (max lu ld + debounce_ms) ps
unfolding pulses fires_in Clock
idle_lem hold lu ld from c [] s v w long u d clock = refl
idle_lem hold lu ld from c (p ∷ ps) s v w long u d (later, fits, clock) =
    let (view, flag) = checked-View p.0 hold lu ld p.1 c s v w.pair long in
    let next = (checked p.0 (both_low p.1) s).0 in
    elim (Bool-cases (ltb p.0 (max lu ld + debounce_ms))) [
      | inl early ↦
          let off = pressed_early p.0 lu ld (omega arith) (omega arith) (ground arith) fits in
          let (quiet, w') = Idle-waits p.0 hold c w in
          rw (flag, off, quiet, early)
            (omega (
              arith,
              idle_lem hold lu ld p.0 (seen (record c { intent_active = false })) ps next
                  (rw off at view) w' long (omega arith) (omega arith) clock,
            ))
      | inr ready ↦
          let late : max lu ld + debounce_ms ≤ p.0 = ground arith in
          let on = pressed_late p.0 lu ld late fits in
          let (quiet, w') = Idle-begins p.0 hold c w long fits in
          rw (flag, on, quiet, ready)
            (omega (
              arith,
              waiting_lem hold lu ld p.0 p.0 (seen (hold_combo p.0 c)) ps next (rw on at view) w'
                  long late (omega arith) clock,
            ))
    ]

-- UP and DOWN are seen down, and the combination of the two, to be held for `hold`, has not begun.
pub record IsPressed (hold : ℕ) (s : Buttons) : Type 0 where
  pub up_low : s.up.prev_raw ≡ false
  pub down_low : s.down.prev_raw ≡ false
  pub a_up : s.combo.a ≡ btn_up
  pub b_down : s.combo.b ≡ btn_down
  pub hold_ms : s.combo.combo_hold_ms ≡ hold
  pub apart : s.combo.intent_active ≡ false
  pub calm : (s.combo.fired && not s.combo.consumed) ≡ false

-- From when UP and DOWN are both seen down, with no press of the two under way and a hold above 0
-- set for their combination, while their lines stay low and the clock neither goes back nor
-- wraps: the combination fires once if some poll comes the hold or more after the first poll at
-- which both are debounced, and otherwise not at all, whatever SELECT does and however often it
-- is polled.
pub once_lem :
    (hold from : ℕ) (ps : List Turn) (s : Buttons)
    → IsPressed hold s
    → 0 < hold
    → s.up.last_change_ms ≤ from
    → s.down.last_change_ms ≤ from
    → Clock from ps
    → pulses ps s ≡ fires_in hold (max s.up.last_change_ms s.down.last_change_ms + debounce_ms) ps
once_lem hold from ps s v long u d clock =
    idle_lem hold s.up.last_change_ms s.down.last_change_ms from s.combo ps s
      (record {
        up_low = v.up_low;
        down_low = v.down_low;
        up_since = refl;
        down_since = refl;
        combo = refl;
      })
      (record {
        pair = record { a_up = v.a_up; b_down = v.b_down; hold_ms = v.hold_ms };
        apart = v.apart;
        calm = v.calm;
      })
      long u d clock
