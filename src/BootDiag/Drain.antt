-- ===== src/BootDiag/Drain.antt =====
-- The drain of Core 1 during a round, and the access log at the start of a pass.
use msx_pulse.Shared.{ℕ, ◌+◌, ◌-◌, ◌≤◌, ◌<◌, ◌≡◌, refl, ◌^◌, true, some, [], ◌∷◌, length, arith}
use msx_pulse.BusProbe.{Snapshot}
use msx_pulse.BootDetect
use msx_pulse.BootDetect.{BootDetect}
use msx_pulse.BootCapture
use msx_pulse.BootCapture.{ring_len, fresh}
use msx_pulse.BootCapture.Ring.{filled, write_addr, IsSynced, fresh-IsSynced}
use msx_pulse.BootCapture.Drain.{Traffic, IsDrainable, shown, events, drain_lem}
use msx_pulse.BootCapture.Words.{decoded, decode_alog}
use msx_pulse.TxnCapture
use msx_pulse.TxnCapture.Drain.{reads, drain-reads}
use msx_pulse.BootDiag.{
  Diag, capture_reset, txn_reset, pulse_reset, pass_begin, dispatch, tick, tick_pass_begin,
  core1_drain_step,
}
use msx_pulse.BootDiag.Invariant.{feeds}

-- If no ring was lapped since the last drain, a drain of Core 1 returns and is a step of the round:
-- the detector is fed the bus events of both rings and the new entries of the access log, the
-- analyser the reads, each once and in order; of the rest only the cursors move, and they stay
-- ready for the next drain.
pub core1_drain_lem :
    (mem io : Traffic) (log : ℕ → ℕ) (captured now_us base n more : ℕ) (h : ℕ → ℕ) (d : Diag)
    → IsDrainable mem d.capture.mem
    → IsDrainable io d.capture.io
    → d.capture.alog_rd ≤ captured
    → captured < 2 ^ 16
    → base + 2 ^ 14 ≤ 2 ^ 32
    → d.txn.armed ≡ true
    → IsSynced n d.txn.cursor
    → more < ring_len
    → (capture : BootCapture.Capture) × (txn : TxnCapture.Capture) × (core1_drain_step
          (shown mem io log captured now_us)
          (filled h (n + more))
          (write_addr base (n + more))
          base
          d
        ≡ some
            (feeds (events mem io log d.capture.alog_rd captured) (reads h n more) capture txn d))
      × IsSynced (mem.before + mem.since) capture.mem
      × IsSynced (io.before + io.since) capture.io
      × (capture.alog_rd ≡ captured)
      × IsSynced (n + more) txn.cursor
unfolding core1_drain_step
core1_drain_lem mem io log captured now_us base n more h d vm vi ahead few room armed v less =
    let (capture, run, synced_mem, synced_io, at_end, _, _) =
      drain_lem mem io log captured now_us d.capture d.detect vm vi ahead few in
    let (txn, read, synced, _) = drain-reads base n more h d.txn d.bi room armed v less in
    (
      capture,
      txn,
      rw (run, core1_drain_step) (rw (read) refl),
      synced_mem,
      synced_io,
      at_end,
      synced,
    )

abbrev pub silent : ℕ → Traffic
silent base = record { words = λ _. 0; before = 0; since = 0; base = base }

-- The first drain after a reset of the capture, if the rings are still empty.
pub refeeds :
    (log : ℕ → ℕ) (captured now_us base_mem base_io : ℕ) (s : BootDetect)
    → captured < 2 ^ 16
    → base_mem + 2 ^ 14 ≤ 2 ^ 32
    → base_io + 2 ^ 14 ≤ 2 ^ 32
    → let es = decoded decode_alog log 0 captured in
      (c' : BootCapture.Capture) × (BootCapture.drain
          (shown (silent base_mem) (silent base_io) log captured now_us)
          BootCapture.init
          s
        ≡ some (BootDetect.feed_all s es, length es, c'))
unfolding events decoded BootCapture.init
refeeds log captured now_us base_mem base_io s few room_mem room_io =
    let (c', run, _, _, _, _, _) =
      drain_lem (silent base_mem) (silent base_io) log captured now_us BootCapture.init s
        (record { room = room_mem; synced = fresh-IsSynced; few = omega arith })
        (record { room = room_io; synced = fresh-IsSynced; few = omega arith }) (omega arith) few in
    let whole : captured - 0 ≡ captured = omega arith in (c', rw whole at run)

-- The tick that starts a pass.
pub tick-pass_begin :
    (now_ms : ℕ) (snap : Snapshot) (d : Diag)
    → d.phase ≡ pass_begin
    → d.capture.armed ≡ true
    → ((tick now_ms snap d).0.capture ≡ BootCapture.init)
      × ((tick now_ms snap d).0.detect ≡ d.detect)
      × ((tick now_ms snap d).1 ≡ capture_reset ∷ txn_reset ∷ pulse_reset ∷ [])
unfolding tick dispatch tick_pass_begin BootCapture.reset
tick-pass_begin now_ms snap d starts armed = rw (starts, armed) (refl, refl, refl)
