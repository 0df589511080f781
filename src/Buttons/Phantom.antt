-- ===== src/Buttons/Phantom.antt =====
-- A SELECT line that is low from the start, as while the flash boots, is no press.
use msx_pulse.Shared.{
  ℕ, ◌≡◌, refl, Bool, true, false, if◌then◌else◌, if_keeps, List, [], ◌∷◌, All, arith,
}
use msx_pulse.Ui.{BtnEvent, btn_none, btn_up, btn_down, btn_select}
use msx_pulse.Buttons.{
  Btn, Combo, Buttons, Levels, init, set_combo, same_event, take_level, note_press, sense,
  sense_all, drop_short, combo_pass, hold_combo, short_pass, hold_pass, poll,
}

-- Released and not armed, with no press pending.
record Quiet (b : Btn) : Type 0 where
  unarmed : b.armed ≡ false
  released : b.stable ≡ true
  nothing_pending : b.pending_short ≡ false

take_level-Quiet : (now : ℕ) (b : Btn) → Quiet b → Quiet (take_level now false b)
unfolding take_level
take_level-Quiet now b q = ground arith

note_press-Quiet :
    (now : ℕ) (e : BtnEvent) (c : Combo) (b : Btn)
    → Quiet b
    → Quiet (note_press now e c b).0 × ((note_press now e c b).1 ≡ false)
unfolding note_press
note_press-Quiet now e c b q = ground arith

sense-Quiet :
    (now : ℕ) (raw : Bool) (e : BtnEvent) (c : Combo) (b : Btn)
    → raw ≡ false
    → Quiet b
    → Quiet (sense now raw e c b).0 × ((sense now raw e c b).1 ≡ false)
unfolding sense
sense-Quiet now raw e c b low q =
    rw low (note_press-Quiet now e c (take_level now false b) (take_level-Quiet now b q))

-- SELECT is quiet and the event is not its own.
record Passed (r : Buttons × BtnEvent) : Type 0 where
  quiet : Quiet r.0.sel
  other : same_event r.1 btn_select ≡ false

pub silent_event :
    (fires : Bool)
    → fires ≡ false
    → same_event (if fires then btn_select else btn_none) btn_select ≡ false
silent_event fires h = ground arith

sense_all-Passed :
    (now : ℕ) (raw : Levels) (s : Buttons)
    → raw.sel_raw ≡ false
    → Quiet s.sel
    → Passed (sense_all now raw s)
unfolding sense_all
sense_all-Passed now raw s low q =
    let (quiet, silent) = sense-Quiet now raw.sel_raw btn_select s.combo s.sel low q in
    if_keeps Passed (sense now raw.up_raw btn_up s.combo s.up).1
      (record { quiet = q; other = refl })
      (if_keeps Passed (sense now raw.down_raw btn_down s.combo s.down).1
        (record { quiet = q; other = refl })
        (record {
          quiet = quiet;
          other = silent_event (sense now raw.sel_raw btn_select s.combo s.sel).1 silent;
        }))

drop_short-Quiet : (e : BtnEvent) (s : Buttons) → Quiet s.sel → Quiet (drop_short e s).sel
drop_short-Quiet btn_none s q = q
drop_short-Quiet btn_up s q = q
drop_short-Quiet btn_down s q = q
drop_short-Quiet btn_select s q = ground arith

combo_pass-Quiet : (now : ℕ) (s : Buttons) → Quiet s.sel → Quiet (combo_pass now s).sel
unfolding combo_pass
combo_pass-Quiet now s q =
    let held = record s { combo = hold_combo now s.combo } in
    ground (
      arith,
      drop_short-Quiet s.combo.a (drop_short s.combo.b held) (drop_short-Quiet s.combo.b held q),
    )

short_pass-Passed : (now : ℕ) (s : Buttons) → Quiet s.sel → Passed (short_pass now s)
unfolding short_pass
short_pass-Passed now s q = ground arith

hold_pass-Passed : (now : ℕ) (s : Buttons) → Quiet s.sel → Passed (hold_pass now s)
unfolding hold_pass
hold_pass-Passed now s q = ground arith

poll-Passed :
    (now : ℕ) (raw : Levels) (s : Buttons)
    → raw.sel_raw ≡ false
    → Quiet s.sel
    → Passed (poll now raw s)
unfolding poll
poll-Passed now raw s low q =
    let sensed = sense_all-Passed now raw s low q in
    let short =
      short_pass-Passed now (combo_pass now (sense_all now raw s).0)
        (combo_pass-Quiet now (sense_all now raw s).0 sensed.quiet) in
    if_keeps Passed _ sensed (if_keeps Passed _ short (hold_pass-Passed now _ short.quiet))

-- A poll: the clock, and the levels of the three lines.
abbrev pub Poll : Type 0
Poll = ℕ × Levels

unfoldable pub poll_all : List Poll → Buttons → Buttons
poll_all [] s = s
poll_all (p ∷ ps) s = poll_all ps (poll p.0 p.1 s).0

poll_all-Quiet :
    (ps : List Poll) (s : Buttons)
    → All (λ p. p.1.sel_raw ≡ false) ps
    → Quiet s.sel
    → Quiet (poll_all ps s).sel
unfolding poll_all
poll_all-Quiet [] s low q = q
poll_all-Quiet (p ∷ ps) s low q =
    poll_all-Quiet ps (poll p.0 p.1 s).0 low.1 (poll-Passed p.0 p.1 s low.0 q).quiet

-- If the SELECT line is low at every poll from the start, however long and whatever the other
-- lines do, with or without a combination set, no poll ever gives a SELECT event.
pub phantom_lem :
    (s : Buttons) (a b : BtnEvent) (hold : ℕ) (ps : List Poll) (p : Poll)
    → All (λ p. p.1.sel_raw ≡ false) ps
    → p.1.sel_raw ≡ false
    → same_event (poll p.0 p.1 (poll_all ps (set_combo a b hold (init s)))).1 btn_select ≡ false
unfolding set_combo init
phantom_lem s a b hold ps p low last =
    (poll-Passed p.0 p.1 (poll_all ps (set_combo a b hold (init s))) last
      (poll_all-Quiet ps (set_combo a b hold (init s)) low (starts_quiet s a b hold))).other
  where
    starts_quiet :
        (s : Buttons) (a b : BtnEvent) (hold : ℕ) → Quiet (set_combo a b hold (init s)).sel
    starts_quiet s a b hold = record { unarmed = refl; released = refl; nothing_pending = refl }
