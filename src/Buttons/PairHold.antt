-- ===== src/Buttons/PairHold.antt =====
-- The combination of UP and DOWN before, during and after its hold.
use msx_pulse.Shared.{ℕ, ◌+◌, ◌≤◌, ◌<◌, ◌^◌, ◌≡◌, refl, true, false, arith}
use msx_pulse.Buttons.{Combo, hold_combo}
use msx_pulse.Buttons.PairView.{Pair, fires, seen}

-- Before, during and after the hold of the combination.
pub record Idle (hold : ℕ) (c : Combo) : Type 0 where
  pub pair : Pair hold c
  pub apart : c.intent_active ≡ false
  pub calm : fires c ≡ false

pub record Waiting (hold since : ℕ) (c : Combo) : Type 0 where
  pub pair : Pair hold c
  pub down : c.intent_active ≡ true
  pub began : c.both_pressed_since_ms ≡ since
  pub unfired : c.fired ≡ false

pub record Spent (hold : ℕ) (c : Combo) : Type 0 where
  pub pair : Pair hold c
  pub down : c.intent_active ≡ true
  pub fired : c.fired ≡ true
  pub consumed : c.consumed ≡ true

pub Idle-waits :
    (now hold : ℕ) (c : Combo)
    → Idle hold c
    → (fires (record c { intent_active = false }) ≡ false)
      × Idle hold (seen (record c { intent_active = false }))
Idle-waits now hold c v = (
  v.calm,
  rw (v.calm) (record {
    pair = record { a_up = v.pair.a_up; b_down = v.pair.b_down; hold_ms = v.pair.hold_ms };
    apart = refl;
    calm = v.calm;
  }),
)

pub Idle-begins :
    (now hold : ℕ) (c : Combo)
    → Idle hold c
    → 0 < hold
    → now < 2 ^ 32
    → (fires (hold_combo now c) ≡ false) × Waiting hold now (seen (hold_combo now c))
unfolding hold_combo
Idle-begins now hold c v long clock = ground (arith, v.pair.hold_ms)

pub Waiting-goes_on :
    (now hold since : ℕ) (c : Combo)
    → Waiting hold since c
    → since ≤ now
    → now < since + hold
    → now < 2 ^ 32
    → (fires (hold_combo now c) ≡ false) × Waiting hold since (seen (hold_combo now c))
unfolding hold_combo
Waiting-goes_on now hold since c v after early clock = ground (arith, v.pair.hold_ms)

pub Waiting-fires :
    (now hold since : ℕ) (c : Combo)
    → Waiting hold since c
    → since + hold ≤ now
    → now < 2 ^ 32
    → (fires (hold_combo now c) ≡ true) × Spent hold (seen (hold_combo now c))
unfolding hold_combo
Waiting-fires now hold since c v late clock = ground (arith, v.pair.hold_ms)

pub Spent-stays :
    (now hold : ℕ) (c : Combo)
    → Spent hold c
    → (fires (hold_combo now c) ≡ false) × Spent hold (seen (hold_combo now c))
unfolding hold_combo
Spent-stays now hold c v = ground arith
