-- ===== src/BootDiag/Running.antt =====
-- What holds of a round even if the detector is reset under it, as the RESET command does.
use msx_pulse.Shared.{ℕ, ◌<◌, ◌≡◌, refl, false, arith}
use msx_pulse.BusProbe.{Snapshot}
use msx_pulse.BootDiag.{
  Phase, idle, pass_begin, capturing, settle, done, Diag, max_passes, start, tick, is_resting,
  tick_resting, tick_pass_begin, tick_capturing, tick_settle, dispatch,
}
use msx_pulse.BootDiag.Invariant.{is_capturing}

pub record IsRunning (d : Diag) : Type 0 where
  pub draining : d.capture_active ≡ is_capturing d.phase
  pub few_passes : is_resting d.phase ≡ false → d.pass < max_passes

dispatch-IsRunning :
    (k : Phase) (now : ℕ) (snap : Snapshot) (d : Diag)
    → d.phase ≡ k
    → IsRunning d
    → IsRunning (dispatch k now snap d).0
unfolding dispatch tick_resting tick_pass_begin tick_capturing tick_settle
dispatch-IsRunning idle now snap d p v = ground arith
dispatch-IsRunning done now snap d p v = ground arith
dispatch-IsRunning pass_begin now snap d p v = ground arith
dispatch-IsRunning capturing now snap d p v = ground arith
dispatch-IsRunning settle now snap d p v = ground arith

pub tick-IsRunning :
    (now : ℕ) (snap : Snapshot) (d : Diag) → IsRunning d → IsRunning (tick now snap d).0
unfolding tick
tick-IsRunning now snap d v = dispatch-IsRunning d.phase now snap d refl v

pub start-IsRunning : (d : Diag) → IsRunning d → IsRunning (start d)
unfolding start
start-IsRunning d v = ground arith

-- A tick does not take back a request while a round runs, and does nothing when a round is done and
-- no other is asked for.
dispatch-request :
    (k : Phase) (now : ℕ) (snap : Snapshot) (d : Diag)
    → is_resting k ≡ false
    → (dispatch k now snap d).0.request ≡ d.request
unfolding dispatch tick_pass_begin tick_capturing tick_settle
dispatch-request pass_begin now snap d r = refl
dispatch-request capturing now snap d r = ground arith
dispatch-request settle now snap d r = ground arith
dispatch-request idle now snap d r = absurd (ground arith)
dispatch-request done now snap d r = absurd (ground arith)

pub tick-request :
    (now : ℕ) (snap : Snapshot) (d : Diag)
    → is_resting d.phase ≡ false
    → (tick now snap d).0.request ≡ d.request
unfolding tick
tick-request now snap d r = dispatch-request d.phase now snap d r

pub tick-done :
    (now : ℕ) (snap : Snapshot) (d : Diag)
    → d.phase ≡ done
    → d.request ≡ false
    → (tick now snap d).0 ≡ d
unfolding tick dispatch tick_resting
tick-done now snap d p r = rw (p, r) refl

-- The tick that follows a request when a round is done begins the next round.
pub tick-start :
    (now : ℕ) (snap : Snapshot) (d : Diag)
    → d.phase ≡ done
    → (tick now snap (start d)).0.phase ≡ pass_begin
unfolding tick dispatch tick_resting start
tick-start now snap d p = rw p refl

pub start-phase : (d : Diag) → (start d).phase ≡ d.phase
unfolding start
start-phase d = ground arith

pub start-result : (d : Diag) → (start d).result ≡ d.result
unfolding start
start-result d = ground arith
