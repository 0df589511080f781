-- ===== src/BootDiag/Invariant.antt =====
-- Two cores at work on a round: what holds at every moment.
use msx_pulse.Shared.{ℕ, ◌≤◌, ◌<◌, ◌≡◌, refl, ◌⊎◌, bit_and, Bool, true, false, List, arith, ap}
use msx_pulse.BusProbe.{Snapshot}
use msx_pulse.BusIntegrity
use msx_pulse.BusIntegrity.{BusIntegrity}
use msx_pulse.BusIntegrity.Fields
use msx_pulse.BootDetect
use msx_pulse.BootDetect.{BootDetect, BusEvent}
use msx_pulse.BootCapture
use msx_pulse.TxnCapture
use msx_pulse.BootDiag.{
  Phase, idle, pass_begin, capturing, settle, done, Diag, max_passes, start, tick, freeze,
  round_should_stop, is_resting, tick_resting, tick_pass_begin, tick_capturing, tick_settle,
  dispatch,
}

abbrev pub is_capturing : Phase → Bool
is_capturing capturing = true
is_capturing _ = false

-- A drain by Core 1: the events `es` go to the detector and the reads `rs` to the analyser, and the
-- cursors move in some way.
abbrev pub feeds :
    List BusEvent
    → List BusIntegrity.Fields.Read
    → BootCapture.Capture
    → TxnCapture.Capture
    → Diag
    → Diag
feeds es rs capture txn d = record d {
  detect = BootDetect.feed_all d.detect es;
  bi = BusIntegrity.Fields.feed_all d.bi rs;
  capture = capture;
  txn = txn;
}

-- What may happen next: Core 0 ticks, a button or a command starts a round, or Core 1 drains,
-- which it does only while the capture is active.
pub data Step (d : Diag) : Diag → Type 0 where
  ticks : (now_ms : ℕ) (snap : Snapshot) → Step d (tick now_ms snap d).0
  starts : Step d (start d)
  drains :
      (es : List BusEvent) (rs : List BusIntegrity.Fields.Read) (capture : BootCapture.Capture)
      (txn : TxnCapture.Capture)
      → d.capture_active ≡ true
      → Step d (feeds es rs capture txn d)

pub data Reach (d : Diag) : Diag → Type 0 where
  here : Reach d d
  then_step : {mid last : Diag} → Reach d mid → Step mid last → Reach d last

-- At power-up the statics are zero: no round was run.
pub record IsPowerUp (d : Diag) : Type 0 where
  pub inactive : d.capture_active ≡ false
  pub at_rest : d.phase ≡ idle
  pub no_request : d.request ≡ false

abbrev pub IsComplete : Diag → Type 0
IsComplete d = bit_and d.detect.phase_flags 0x1ff ≡ 0x1ff

pub record IsValid (d : Diag) : Type 0 where
  pub draining : d.capture_active ≡ is_capturing d.phase
  pub few_passes : is_resting d.phase ≡ false → d.pass < max_passes
  pub frozen : d.phase ≡ done → d.result ≡ freeze d
  pub finished :
      d.phase ≡ done → (1 ≤ d.pass) × (d.pass ≤ max_passes) × ((d.pass ≡ max_passes) ⊎ IsComplete d)

power_up-IsValid : (d : Diag) → IsPowerUp d → IsValid d
power_up-IsValid d p = ground arith

pub start-IsValid : (d : Diag) → IsValid d → IsValid (start d)
unfolding start freeze
start-IsValid d v = ground arith

pub feeds-IsValid :
    (d : Diag) (es : List BusEvent) (rs : List BusIntegrity.Fields.Read)
    (capture : BootCapture.Capture) (txn : TxnCapture.Capture)
    → d.capture_active ≡ true
    → IsValid d
    → IsValid (feeds es rs capture txn d)
feeds-IsValid d es rs capture txn live v = ground arith

tick_resting-IsValid :
    (d : Diag) → is_resting d.phase ≡ true → IsValid d → IsValid (tick_resting d).0
unfolding tick_resting freeze
tick_resting-IsValid d p v = ground arith

tick_pass_begin-IsValid :
    (now : ℕ) (d : Diag) → d.phase ≡ pass_begin → IsValid d → IsValid (tick_pass_begin now d).0
unfolding tick_pass_begin
tick_pass_begin-IsValid now d p v = ground arith

tick_capturing-IsValid :
    (now : ℕ) (d : Diag) → d.phase ≡ capturing → IsValid d → IsValid (tick_capturing now d).0
unfolding tick_capturing
tick_capturing-IsValid now d p v = ground arith

tick_settle-IsValid :
    (now : ℕ) (snap : Snapshot) (d : Diag)
    → d.phase ≡ settle
    → IsValid d
    → IsValid (tick_settle now snap d).0
unfolding tick_settle round_should_stop freeze
tick_settle-IsValid now snap d p v = ground arith

dispatch-IsValid :
    (k : Phase) (now : ℕ) (snap : Snapshot) (d : Diag)
    → d.phase ≡ k
    → IsValid d
    → IsValid (dispatch k now snap d).0
unfolding dispatch
dispatch-IsValid idle now snap d p v = tick_resting-IsValid d (ap is_resting p) v
dispatch-IsValid done now snap d p v = tick_resting-IsValid d (ap is_resting p) v
dispatch-IsValid pass_begin now snap d p v = tick_pass_begin-IsValid now d p v
dispatch-IsValid capturing now snap d p v = tick_capturing-IsValid now d p v
dispatch-IsValid settle now snap d p v = tick_settle-IsValid now snap d p v

pub tick-IsValid : (now : ℕ) (snap : Snapshot) (d : Diag) → IsValid d → IsValid (tick now snap d).0
unfolding tick
tick-IsValid now snap d v = dispatch-IsValid d.phase now snap d refl v

Step-IsValid : {d e : Diag} → Step d e → IsValid d → IsValid e
Step-IsValid {d} (ticks now snap) v = tick-IsValid now snap d v
Step-IsValid {d} starts v = start-IsValid d v
Step-IsValid {d} (drains es rs capture txn live) v = feeds-IsValid d es rs capture txn live v

-- However the ticks of Core 0, the requests for a round and the drains of Core 1 follow each other
-- after power-up: the capture is active exactly in the capturing phase, no more than three passes
-- are run, and once a round is done the published result is what `freeze` reads off the detector
-- and the analyser at this moment (nothing moved since), after three passes or fewer with a
-- complete boot.
pub Reach-IsValid : (d e : Diag) → IsPowerUp d → Reach d e → IsValid e
Reach-IsValid d e p here = power_up-IsValid d p
Reach-IsValid d e p (then_step {mid = m} r s) = Step-IsValid s (Reach-IsValid d m p r)
