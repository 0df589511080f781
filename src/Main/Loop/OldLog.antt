-- ===== src/Main/Loop/OldLog.antt =====
-- The access log at the start of a pass: BootDiag and the hardware together.
use msx_pulse.Shared.{
  ℕ, ◌+◌, ◌≤◌, ◌<◌, ◌≡◌, ◌^◌, refl, true, false, Bool-cases, inl, inr, is_neg, ◌==ℤ◌, some, length,
  [], ◌∷◌,
}
use msx_pulse.BusProbe.{Snapshot}
use msx_pulse.BootDetect
use msx_pulse.BootDetect.{BootDetect}
use msx_pulse.BootCapture
use msx_pulse.BootCapture.Arming
use msx_pulse.BootCapture.Drain.{shown}
use msx_pulse.BootCapture.Words.{decoded, decode_alog}
use msx_pulse.TxnCapture.Arming as TxnArming
use msx_pulse.BootDiag.{Diag, capture_reset, txn_reset, pulse_reset, pass_begin, tick}
use msx_pulse.BootDiag.Drain.{silent, refeeds, tick-pass_begin}
use msx_pulse.Hardware.Trace.{Filled, filled_after}
use msx_pulse.MsxRuntime.{Runtime, pulse_reset_passive}
use msx_pulse.Main.Loop.{Claimed, carry_out_all}

-- The captures have other channels than the access log.
pub record OwnChannels (r : Runtime) (t : TxnArming.Arming) : Type 0 where
  pub mem : (r.capture.mem_dma ==ℤ r.alog.dma_ch) ≡ false
  pub io : (r.capture.io_dma ==ℤ r.alog.dma_ch) ≡ false
  pub txn : (t.dma ==ℤ r.alog.dma_ch) ≡ false

pass_keeps_log :
    (k : Claimed) (r : Runtime) (t : TxnArming.Arming) (log : Filled)
    → OwnChannels r t
    → filled_after r.alog.dma_ch
        (carry_out_all k (capture_reset ∷ txn_reset ∷ pulse_reset ∷ []) (r, t)).1
        log
      ≡ log
unfolding carry_out_all filled_after Arming.reset_calls TxnArming.reset_calls pulse_reset_passive
pass_keeps_log k r t log own = elim (Bool-cases (is_neg r.capture.mem_dma)) [
  | inl n ↦ elim (Bool-cases (is_neg t.dma)) [
    | inl m ↦ rw (n, m) refl
    | inr m ↦ rw (n, m, own.txn) refl
  ]
  | inr n ↦ elim (Bool-cases (is_neg t.dma)) [
    | inl m ↦ rw (n, m, own.mem, own.io) refl
    | inr m ↦ rw (n, m, own.mem, own.io, own.txn) refl
  ]
]

-- The tick that starts a pass, with all that it does to the hardware, its reset pulse included,
-- leaves the access log as it was, if the captures have other channels than the log. With an
-- armed capture, fewer than 2^16 entries in the log and the rings of the captures in the 32-bit
-- address space, the first drain after that tick, if nothing has come in since, feeds the
-- detector every header read that was in the log before the tick.
pub stale_log_lem :
    (now_ms : ℕ) (snap : Snapshot) (d : Diag) (k : Claimed) (r : Runtime) (t : TxnArming.Arming)
    (log : Filled) (now_us base_mem base_io : ℕ)
    → d.phase ≡ pass_begin
    → d.capture.armed ≡ true
    → OwnChannels r t
    → log.count < 2 ^ 16
    → base_mem + 2 ^ 14 ≤ 2 ^ 32
    → base_io + 2 ^ 14 ≤ 2 ^ 32
    → let ticked = tick now_ms snap d in
      let left = filled_after r.alog.dma_ch (carry_out_all k ticked.1 (r, t)).1 log in
      let es = decoded decode_alog log.words 0 log.count in
      (left ≡ log)
      × ((c' : BootCapture.Capture) × (BootCapture.drain
              (shown (silent base_mem) (silent base_io) left.words left.count now_us)
              ticked.0.capture
              ticked.0.detect
            ≡ some (BootDetect.feed_all d.detect es, length es, c')))
stale_log_lem now_ms snap d k r t log now_us base_mem base_io starts armed own few room_mem
      room_io =
    let (fresh, same, calls) = tick-pass_begin now_ms snap d starts armed in
    let kept = pass_keeps_log k r t log own in
    rw (fresh, same, calls, kept)
      (refl, refeeds log.words log.count now_us base_mem base_io d.detect few room_mem room_io)
