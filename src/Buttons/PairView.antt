-- ===== src/Buttons/PairView.antt =====
-- What the polls make of the combination of UP and DOWN while both lines are low.
use msx_pulse.Shared.{
  ℕ, ◌+◌, ◌≤◌, ◌<◌, ◌^◌, ◌≡◌, refl, Bool, true, false, not, ◌&&◌, ◌||◌, ltb, leb, max,
  if◌then◌else◌, if_keeps, arith, ap, ◌∙◌, inl, inr, Bool-cases, sub32,
}
use msx_pulse.Ui.{BtnEvent, btn_none, btn_up, btn_down, btn_select}
use msx_pulse.Buttons.{
  Btn, Combo, Buttons, Levels, is_none, take_level, note_press, sense, sense_all, drop_short,
  combo_pass, hold_combo, short_pass, hold_pass, poll, combo_check, event_pressed, debounce_ms,
  is_combo_btn,
}

abbrev pub both_low : Bool → Levels
both_low sel = record { up_raw = false; down_raw = false; sel_raw = sel }

-- What the combination reads of the lines, both seen low since then, and the combination itself.
pub record View (lu ld : ℕ) (c : Combo) (t : Buttons) : Type 0 where
  pub up_low : t.up.prev_raw ≡ false
  pub down_low : t.down.prev_raw ≡ false
  pub up_since : t.up.last_change_ms ≡ lu
  pub down_since : t.down.last_change_ms ≡ ld
  pub combo : t.combo ≡ c

record ViewOf (lu ld : ℕ) (c : Combo) (r : Buttons × BtnEvent) : Type 0 where
  view : View lu ld c r.0

pub record Pair (hold : ℕ) (c : Combo) : Type 0 where
  pub a_up : c.a ≡ btn_up
  pub b_down : c.b ≡ btn_down
  pub hold_ms : c.combo_hold_ms ≡ hold

-- What pass 2 makes of the combination.
abbrev pub passed : (now : ℕ) → Bool → Combo → Combo
passed now pressed c = if pressed then hold_combo now c else record c { intent_active = false }

take_level_low :
    (now : ℕ) (b : Btn)
    → b.prev_raw ≡ false
    → ((take_level now false b).prev_raw ≡ false)
      × ((take_level now false b).last_change_ms ≡ b.last_change_ms)
unfolding take_level
take_level_low now b low = ground arith

note_press_level :
    (now : ℕ) (e : BtnEvent) (c : Combo) (b : Btn)
    → ((note_press now e c b).0.prev_raw ≡ b.prev_raw)
      × ((note_press now e c b).0.last_change_ms ≡ b.last_change_ms)
unfolding note_press
note_press_level now e c b = ground arith

note_press_combo :
    (now : ℕ) (e : BtnEvent) (c : Combo) (b : Btn)
    → is_combo_btn e c ≡ true
    → (note_press now e c b).1 ≡ false
unfolding note_press
note_press_combo now e c b pair = ground arith

note_press_select : (now : ℕ) (c : Combo) (b : Btn) → (note_press now btn_select c b).1 ≡ false
unfolding note_press
note_press_select now c b = ground arith

-- Whether both lines are debounced.
abbrev pub pressed_at : (now lu ld : ℕ) → Bool
pressed_at now lu ld = leb debounce_ms (sub32 now lu) && leb debounce_ms (sub32 now ld)

Pair-is_combo_btn :
    (hold : ℕ) (c : Combo)
    → Pair hold c
    → 0 < hold
    → (is_combo_btn btn_up c ≡ true) × (is_combo_btn btn_down c ≡ true)
Pair-is_combo_btn hold c p long = ground (arith, p.a_up, p.b_down, p.hold_ms)

-- With both lines low, pass 1 ends without an event.
sense_all-View :
    (now hold lu ld : ℕ) (sel : Bool) (c : Combo) (s : Buttons)
    → View lu ld c s
    → Pair hold c
    → 0 < hold
    → ((sense_all now (both_low sel) s).1 ≡ btn_none)
      × View lu ld c (sense_all now (both_low sel) s).0
unfolding sense_all sense
sense_all-View now hold lu ld sel c s v p long =
    let (up, down) = Pair-is_combo_btn hold c p long in
    let u = note_press_combo now btn_up s.combo (take_level now false s.up) (rw (v.combo) up) in
    let d =
      note_press_combo now btn_down s.combo (take_level now false s.down) (rw (v.combo) down) in
    let n = note_press_select now s.combo (take_level now sel s.sel) in
    let (ul, us) = take_level_low now s.up v.up_low in
    let (dl, ds) = take_level_low now s.down v.down_low in
    let (ul', us') = note_press_level now btn_up s.combo (take_level now false s.up) in
    let (dl', ds') = note_press_level now btn_down s.combo (take_level now false s.down) in
    rw (u, d, n)
      (
        refl,
        record {
          up_low = ul' ∙ ul;
          down_low = dl' ∙ dl;
          up_since = us' ∙ us ∙ v.up_since;
          down_since = ds' ∙ ds ∙ v.down_since;
          combo = v.combo;
        },
      )

drop_short-View :
    (lu ld : ℕ) (c : Combo) (e : BtnEvent) (t : Buttons)
    → View lu ld c t
    → View lu ld c (drop_short e t)
drop_short-View lu ld c btn_none t v = v
drop_short-View lu ld c btn_up t v = ground arith
drop_short-View lu ld c btn_down t v = ground arith
drop_short-View lu ld c btn_select t v = ground arith

-- With the combination of UP and DOWN set, pass 2 acts, and on these two levels.
Pair-acts :
    (now hold lu ld : ℕ) (c : Combo) (t : Buttons)
    → View lu ld c t
    → Pair hold c
    → 0 < hold
    → ((is_none t.combo.a || is_none t.combo.b || not (ltb 0 t.combo.combo_hold_ms)) ≡ false)
      × ((event_pressed now t.combo.a t && event_pressed now t.combo.b t) ≡ pressed_at now lu ld)
Pair-acts now hold lu ld c t v p long =
    let a : t.combo.a ≡ btn_up = ap (λ (k : Combo). k.a) v.combo ∙ p.a_up in
    let b : t.combo.b ≡ btn_down = ap (λ (k : Combo). k.b) v.combo ∙ p.b_down in
    let h : ltb 0 t.combo.combo_hold_ms ≡ true =
      ap (λ (k : Combo). ltb 0 k.combo_hold_ms) v.combo ∙ ground (arith, p.hold_ms) in
    (rw (a, b, h) refl, rw (a, b, v.up_low, v.down_low, v.up_since, v.down_since) refl)

combo_pass-View :
    (now hold lu ld : ℕ) (c : Combo) (t : Buttons)
    → View lu ld c t
    → Pair hold c
    → 0 < hold
    → View lu ld (passed now (pressed_at now lu ld) c) (combo_pass now t)
unfolding combo_pass
combo_pass-View now hold lu ld c t v p long =
    let (acts, presses) = Pair-acts now hold lu ld c t v p long in
    let held : Buttons = record t { combo = hold_combo now t.combo } in
    rw (acts, presses)
      (elim (Bool-cases (pressed_at now lu ld)) [
        | inl q ↦ rw q (
            drop_short-View lu ld (hold_combo now c) t.combo.a (drop_short t.combo.b held) (
              drop_short-View lu ld (hold_combo now c) t.combo.b held (record {
                up_low = v.up_low;
                down_low = v.down_low;
                up_since = v.up_since;
                down_since = v.down_since;
                combo = ap (hold_combo now) v.combo;
              })))
        | inr q ↦ rw q (record {
          up_low = v.up_low;
          down_low = v.down_low;
          up_since = v.up_since;
          down_since = v.down_since;
          combo = ap (λ (k : Combo). record k { intent_active = false }) v.combo;
        })
      ])

short_pass-View :
    (now lu ld : ℕ) (c : Combo) (t : Buttons) → View lu ld c t → View lu ld c (short_pass now t).0
unfolding short_pass
short_pass-View now lu ld c t v = ground arith

hold_pass-View :
    (now lu ld : ℕ) (c : Combo) (t : Buttons) → View lu ld c t → View lu ld c (hold_pass now t).0
unfolding hold_pass
hold_pass-View now lu ld c t v = ground arith

pub poll-View :
    (now hold lu ld : ℕ) (sel : Bool) (c : Combo) (s : Buttons)
    → View lu ld c s
    → Pair hold c
    → 0 < hold
    → View lu ld (passed now (pressed_at now lu ld) c) (poll now (both_low sel) s).0
unfolding poll
poll-View now hold lu ld sel c s v p long =
    let (silent, seen) = sense_all-View now hold lu ld sel c s v p long in
    let sensed = (sense_all now (both_low sel) s).0 in
    let c' = passed now (pressed_at now lu ld) c in
    let moved = combo_pass-View now hold lu ld c sensed seen p long in
    let short = short_pass-View now lu ld c' (combo_pass now sensed) moved in
    rw silent
      (if_keeps (ViewOf lu ld c') (not (is_none (short_pass now (combo_pass now sensed)).1))
        (record { view = short })
        (record {
          view = hold_pass-View now lu ld c' (short_pass now (combo_pass now sensed)).0 short;
        })).view

-- What `buttons_combo_check` makes of the combination.
abbrev pub fires : Combo → Bool
fires c = c.fired && not c.consumed

abbrev pub seen : Combo → Combo
seen c = if fires c then record c { consumed = true } else c

pub combo_check-View :
    (lu ld : ℕ) (c : Combo) (t : Buttons)
    → View lu ld c t
    → View lu ld (seen c) (combo_check t).0 × ((combo_check t).1 ≡ fires c)
unfolding combo_check
combo_check-View lu ld c t v =
    let same : fires t.combo ≡ fires c = ap (λ (k : Combo). fires k) v.combo in
    elim (Bool-cases (fires c)) [
      | inl q ↦
          rw (same, q)
            (
              record {
                up_low = v.up_low;
                down_low = v.down_low;
                up_since = v.up_since;
                down_since = v.down_since;
                combo = ap (λ (k : Combo). record k { consumed = true }) v.combo;
              },
              refl,
            )
      | inr q ↦ rw (same, q) (v, refl)
    ]

pub pressed_late :
    (now lu ld : ℕ) → max lu ld + debounce_ms ≤ now → now < 2 ^ 32 → pressed_at now lu ld ≡ true
pressed_late now lu ld late clock = ground arith

pub pressed_early :
    (now lu ld : ℕ)
    → lu ≤ now
    → ld ≤ now
    → now < max lu ld + debounce_ms
    → now < 2 ^ 32
    → pressed_at now lu ld ≡ false
pressed_early now lu ld u d early clock = ground arith
