-- ===== src/Main/Startup/Reached.antt =====
-- What holds in every state that the firmware comes to.
use msx_pulse.Shared.{ℕ, ◌≡◌, refl, subst, Option, none, some, List, arith, ◌∙◌, sym}
use msx_pulse.BusIntegrity.{BusIntegrity}
use msx_pulse.BootDetect.{BootDetect}
use msx_pulse.BootCapture
use msx_pulse.TxnCapture
use msx_pulse.BootDiag.{Diag, core1_drain_step}
use msx_pulse.BootDiag.Running.{IsRunning}
use msx_pulse.UsbSerial.Ring.{Line}
use msx_pulse.AdcRails.Volts.{Floats}
use msx_pulse.Hardware.{HwCall}
use msx_pulse.Ui
use msx_pulse.Main.Loop.{Core0, Input, loop_round}
use msx_pulse.Main.Loop.Sound.{IsSound, loop_round_lem}
use msx_pulse.Main.Startup.{start_up, Turn, core0, core1, Turns, here, then_turn}

-- If there is a result, `P` holds of it.
Within : {A : Type 0} → (A → Type 0) → Option A → Type 0
Within P none = Unit
Within P (some a) = P a

drained-IsRunning :
    (x : Option (BootDetect × ℕ × BootCapture.Capture))
    (y : Option (BusIntegrity × ℕ × TxnCapture.Capture)) (d : Diag)
    → IsRunning d
    → Within IsRunning (elim x [
      | none ↦ none
      | some (detect, n, capture) ↦ elim y [
        | none ↦ none
        | some (bi, n', txn) ↦
            some (record d { detect = detect; capture = capture; bi = bi; txn = txn })
      ]
    ])
unfolding Within
drained-IsRunning none y d v = tt
drained-IsRunning (some (detect, n, capture)) none d v = tt
drained-IsRunning (some (detect, n, capture)) (some (bi, n', txn)) d v = record {
  draining = v.draining;
  few_passes = v.few_passes;
}

drain-IsRunning :
    (i : BootCapture.Inputs) (ring : ℕ → ℕ) (waddr base : ℕ) (d e : Diag)
    → IsRunning d
    → core1_drain_step i ring waddr base d ≡ some e
    → IsRunning e
unfolding core1_drain_step Within
drain-IsRunning i ring waddr base d e v run = subst (Within IsRunning) run (
    drained-IsRunning (BootCapture.drain i d.capture d.detect)
      (TxnCapture.drain ring waddr base d.txn d.bi) d v)

module _ {V : Type 0} (fixed : (width precision : ℕ) → V → List ℕ) (floats : Floats V) where
  pub start_up-IsSound :
      (raw lut_base : ℕ) → IsSound fixed floats (start_up fixed floats raw lut_base)
  unfolding start_up Ui.init
  start_up-IsSound raw lut_base = record {
    world = record {
      ring = record { writes = omega arith; reads = omega arith };
      running = record { draining = refl; few_passes = λ p. cc };
    };
    menu = record {
      pages = refl;
      page = omega arith;
      selector = omega arith;
      diag_page = omega arith;
      level = refl;
      settings_first = λ p. cc;
      round_first = λ p. cc;
    };
    faults = omega arith;
  }

  Turn-IsSound :
      {s e : Core0 fixed floats}
      → Turn fixed floats s e
      → IsSound fixed floats s
      → IsSound fixed floats e
  unfolding Within
  Turn-IsSound {s} (core0 i r up run) v =
      let (r', ran, v') = loop_round_lem fixed floats i s v in
      subst
        (Within (λ (t : Core0 fixed floats × List Line × List HwCall). IsSound fixed floats t.0))
        (sym ran ∙ run) v'
  Turn-IsSound {s} (core1 i ring waddr base d live run) v = record {
    world = record {
      ring = v.world.ring;
      running = drain-IsRunning i ring waddr base s.world.diag d v.world.running run;
    };
    menu = v.menu;
    faults = v.faults;
  }

  Turns-IsSound :
      {s e : Core0 fixed floats}
      → Turns fixed floats s e
      → IsSound fixed floats s
      → IsSound fixed floats e
  Turns-IsSound here v = v
  Turns-IsSound (then_turn ts t) v = Turn-IsSound t (Turns-IsSound ts v)

  -- However the rounds of Core 0 and the drains of Core 1 follow each other after start-up, whatever
  -- they read: the next round of Core 0 comes to its end as well; the output ring has its indices in
  -- range, the menu is in a state it can be in, the capture is active exactly in the capturing phase
  -- of a diagnostic round and such a round has a pass left, and the count of faulty rail updates is
  -- at most four.
  pub turns_lem :
      (raw lut_base : ℕ) (s : Core0 fixed floats) (i : Input fixed floats)
      → Turns fixed floats (start_up fixed floats raw lut_base) s
      → IsSound fixed floats s
        × ((r : Core0 fixed floats × List Line × List HwCall) × (loop_round fixed floats i s
              ≡ some r))
  turns_lem raw lut_base s i ts =
      let v = Turns-IsSound ts (start_up-IsSound raw lut_base) in
      let (r, run, _) = loop_round_lem fixed floats i s v in (v, (r, run))
