-- ===== src/Buttons/Hold.antt =====
-- SELECT fires only after a long hold: what one poll does.
pub mod Again
use msx_pulse.Shared.{
  ℕ, ◌≡◌, ◌≤◌, refl, Bool, true, false, leb, if◌then◌else◌, if_keeps, sub32, arith, ◌∙◌,
}
use msx_pulse.Ui.{BtnEvent, btn_none, btn_up, btn_down, btn_select}
use msx_pulse.Buttons.{
  Btn, Combo, Buttons, Levels, same_event, is_combo_btn, is_debounced_pressed, take_level,
  note_press, sense, sense_all, drop_short, combo_pass, hold_combo, short_pass, hold_pass, poll,
  select_hold_ms,
}
use msx_pulse.Buttons.Phantom.{silent_event}

-- The line has changed by `latest` at most, and no press waits for the combination's window.
pub record CalmBtn (latest : ℕ) (b : Btn) : Type 0 where
  pub nothing_pending : b.pending_short ≡ false
  pub changed_by : b.last_change_ms ≤ latest

-- So is SELECT, which is in no combination.
pub record Calm (latest : ℕ) (s : Buttons) : Type 0 where
  pub alone : is_combo_btn btn_select s.combo ≡ false
  pub calm : CalmBtn latest s.sel

-- And the event is not SELECT's.
record Plain (latest : ℕ) (r : Buttons × BtnEvent) : Type 0 where
  calm : Calm latest r.0
  other : same_event r.1 btn_select ≡ false

take_level-CalmBtn :
    (latest now : ℕ) (raw : Bool) (b : Btn)
    → now ≤ latest
    → CalmBtn latest b
    → CalmBtn latest (take_level now raw b)
unfolding take_level
take_level-CalmBtn latest now raw b past q = ground arith

note_press-CalmBtn :
    (latest now : ℕ) (c : Combo) (b : Btn)
    → is_combo_btn btn_select c ≡ false
    → CalmBtn latest b
    → CalmBtn latest (note_press now btn_select c b).0 × ((note_press now btn_select c b).1 ≡ false)
unfolding note_press
note_press-CalmBtn latest now c b alone q = ground arith

sense-CalmBtn :
    (latest now : ℕ) (raw : Bool) (c : Combo) (b : Btn)
    → now ≤ latest
    → is_combo_btn btn_select c ≡ false
    → CalmBtn latest b
    → CalmBtn latest (sense now raw btn_select c b).0 × ((sense now raw btn_select c b).1 ≡ false)
unfolding sense
sense-CalmBtn latest now raw c b past alone q =
    note_press-CalmBtn latest now c (take_level now raw b) alone
      (take_level-CalmBtn latest now raw b past q)

sense_all-Plain :
    (latest now : ℕ) (raw : Levels) (s : Buttons)
    → now ≤ latest
    → Calm latest s
    → Plain latest (sense_all now raw s)
unfolding sense_all
sense_all-Plain latest now raw s past q =
    let (calm', silent) = sense-CalmBtn latest now raw.sel_raw s.combo s.sel past q.alone q.calm in
    if_keeps (Plain latest) (sense now raw.up_raw btn_up s.combo s.up).1
      (record { calm = record { alone = q.alone; calm = q.calm }; other = refl })
      (if_keeps (Plain latest) (sense now raw.down_raw btn_down s.combo s.down).1
        (record { calm = record { alone = q.alone; calm = q.calm }; other = refl })
        (record {
          calm = record { alone = q.alone; calm = calm' };
          other = silent_event (sense now raw.sel_raw btn_select s.combo s.sel).1 silent;
        }))

pub is_combo_btn-hold_combo :
    (e : BtnEvent) (now : ℕ) (c : Combo) → is_combo_btn e (hold_combo now c) ≡ is_combo_btn e c
unfolding hold_combo
is_combo_btn-hold_combo e now c = ground arith

drop_short-Calm :
    (latest : ℕ) (e : BtnEvent) (s : Buttons) → Calm latest s → Calm latest (drop_short e s)
drop_short-Calm latest btn_none s q = q
drop_short-Calm latest btn_up s q = record { alone = q.alone; calm = q.calm }
drop_short-Calm latest btn_down s q = record { alone = q.alone; calm = q.calm }
drop_short-Calm latest btn_select s q = record {
  alone = q.alone;
  calm = record { nothing_pending = refl; changed_by = q.calm.changed_by };
}

combo_pass-Calm : (latest now : ℕ) (s : Buttons) → Calm latest s → Calm latest (combo_pass now s)
unfolding combo_pass
combo_pass-Calm latest now s q =
    let held = record s { combo = hold_combo now s.combo } in
    let kept : Calm latest held = record {
      alone = is_combo_btn-hold_combo btn_select now s.combo ∙ q.alone;
      calm = q.calm;
    } in
    ground (
      arith,
      drop_short-Calm latest s.combo.a (drop_short s.combo.b held)
          (drop_short-Calm latest s.combo.b held kept),
    )

short_pass-Plain : (latest now : ℕ) (s : Buttons) → Calm latest s → Plain latest (short_pass now s)
unfolding short_pass
short_pass-Plain latest now s q = ground arith

-- What a SELECT event comes with: a press of SELECT that has lasted.
pub record IsHeld (now_ms : ℕ) (b : Btn) : Type 0 where
  pub pressed : is_debounced_pressed now_ms b ≡ true
  pub long : leb select_hold_ms (sub32 now_ms b.press_start_ms) ≡ true
  pub noted : b.stable ≡ false
  pub once : b.hold_fired ≡ true

pub record HeldSelect (latest now : ℕ) (r : Buttons × BtnEvent) : Type 0 where
  pub calm : Calm latest r.0
  pub if_select : same_event r.1 btn_select ≡ true → IsHeld now r.0.sel

Plain-HeldSelect :
    (latest now : ℕ) (r : Buttons × BtnEvent) → Plain latest r → HeldSelect latest now r
Plain-HeldSelect latest now r v = record { calm = v.calm; if_select = λ h. ground (arith, v.other) }

hold_pass-IsHeld :
    (now : ℕ) (s : Buttons)
    → same_event (hold_pass now s).1 btn_select ≡ true
    → IsHeld now (hold_pass now s).0.sel
unfolding hold_pass
hold_pass-IsHeld now s h = ground arith

hold_pass-Calm : (latest now : ℕ) (s : Buttons) → Calm latest s → Calm latest (hold_pass now s).0
unfolding hold_pass
hold_pass-Calm latest now s q = ground arith

hold_pass-HeldSelect :
    (latest now : ℕ) (s : Buttons) → Calm latest s → HeldSelect latest now (hold_pass now s)
hold_pass-HeldSelect latest now s q = record {
  calm = hold_pass-Calm latest now s q;
  if_select = hold_pass-IsHeld now s;
}

pub poll-HeldSelect :
    (latest now : ℕ) (raw : Levels) (s : Buttons)
    → now ≤ latest
    → Calm latest s
    → HeldSelect latest now (poll now raw s)
unfolding poll
poll-HeldSelect latest now raw s past q =
    let sensed = sense_all-Plain latest now raw s past q in
    let passed =
      short_pass-Plain latest now (combo_pass now (sense_all now raw s).0)
        (combo_pass-Calm latest now (sense_all now raw s).0 sensed.calm) in
    if_keeps (HeldSelect latest now) _ (Plain-HeldSelect latest now _ sensed) (
      if_keeps (HeldSelect latest now) _ (Plain-HeldSelect latest now _ passed)
        (hold_pass-HeldSelect latest now _ passed.calm))
