-- ===== src/BootDiag/Tests.antt =====
-- A round from power-up to its end.
use msx_pulse.Shared.{ℕ, zero, ◌+◌, ◌≡◌, refl, true, false, List, [], ◌∷◌, some, pos, arith}
use msx_pulse.BusProbe.{Snapshot, running}
use msx_pulse.BusIntegrity
use msx_pulse.BootDetect
use msx_pulse.BootCapture
use msx_pulse.BootCapture.{fresh}
use msx_pulse.BootCapture.Ring.{filled, write_addr, IsSynced, fresh-IsSynced}
use msx_pulse.BootCapture.Drain.{shown, events}
use msx_pulse.TxnCapture
use msx_pulse.TxnCapture.Drain.{reads}
use msx_pulse.BootDiag.Drain.{silent, core1_drain_lem}
use msx_pulse.BootDiag.{
  Diag, DiagResult, idle, pass_begin, start, tick, reached, round_should_stop, core1_drain_step,
}
use msx_pulse.BootDiag.Invariant.{ticks, starts, here, then_step, IsValid, Reach-IsValid, feeds}
use msx_pulse.BootDiag.Progress
use msx_pulse.BootDiag.Progress.{Event, dues, ends, is_due, apply, round_ends_lem, reached_lem}

abbrev no_result : DiagResult
no_result = record {
  anomaly_flags = 0;
  stuck_data_hi = 0;
  stuck_data_lo = 0;
  stuck_addr_mask = 0;
  bus_undriven = false;
  cp_checked = 0;
  cp_failed = 0;
  n_reads = 0;
  phase_flags = 0;
  last_confirmed = pos 0;
  first_missing = pos 0;
  early_ppi_writes = false;
  basic_workarea_init = false;
  passes_run = 0;
}

abbrev power_up : Diag
power_up = record {
  capture_active = false;
  inited = false;
  request = false;
  phase = idle;
  pass = 0;
  deadline_ms = 0;
  anom_accum = 0;
  result = no_result;
  bi = BusIntegrity.reset;
  detect = BootDetect.reset;
  capture = record {
    armed = false;
    mem = fresh;
    io = fresh;
    alog_rd = 0;
    late_drains = 0;
    max_gap_us = 0;
    last_drain_us = 0;
  };
  txn = record { armed = false; cursor = fresh };
}

-- A bus with no clock.
abbrev dead_bus : Snapshot
dead_bus = record {
  addr = [];
  data_lines = [];
  ctrl = [];
  clk_hz = 0;
  reset = running;
  timestamp_ms = 0;
}

Reach-IsValid_example : IsValid (tick 5 dead_bus (start power_up)).0
Reach-IsValid_example =
    Reach-IsValid power_up (tick 5 dead_bus (start power_up)).0
      (record { inactive = refl; at_rest = refl; no_request = refl })
      (then_step (then_step here starts) (ticks 5 dead_bus))

-- In the first pass of a round.
abbrev begun : Diag
begun = record power_up { phase = pass_begin; inited = true }

begun-IsValid : IsValid begun
begun-IsValid = record {
  draining = refl;
  few_passes = λ _. omega arith;
  frozen = λ p. cc;
  finished = λ p. cc;
}

abbrev polls : List Event
polls =
    Progress.ticks 0 dead_bus
    ∷ Progress.ticks 8000 dead_bus
    ∷ Progress.ticks 8060 dead_bus
    ∷ Progress.ticks 8061 dead_bus
    ∷ Progress.ticks 16061 dead_bus
    ∷ Progress.ticks 16121 dead_bus
    ∷ Progress.ticks 16122 dead_bus
    ∷ Progress.ticks 24122 dead_bus
    ∷ Progress.ticks 24182 dead_bus
    ∷ []

polls_due : dues polls begun ≡ 9
unfolding dues is_due apply tick reached round_should_stop BootDetect.reset
polls_due = refl

round_ends_example : ends polls begun ≡ true
round_ends_example = round_ends_lem polls begun begun-IsValid refl (omega (arith, polls_due))

-- A pass about to begin with both captures armed.
abbrev armed_begun : Diag
armed_begun = record begun {
  capture = record begun.capture { armed = true };
  txn = record begun.txn { armed = true };
}

-- The two header reads of a cartridge.
abbrev header_log : ℕ → ℕ
header_log zero = 0x414000
header_log _ = 0x424001

core1_drain_example :
    (capture : BootCapture.Capture) × (txn : TxnCapture.Capture) × (core1_drain_step
        (shown (silent 0x20000000) (silent 0x20004000) header_log 2 100)
        (filled (λ _. 0xeaf30000) (0 + 1))
        (write_addr 0x20008000 (0 + 1))
        0x20008000
        armed_begun
      ≡ some (
          feeds
            (events (silent 0x20000000) (silent 0x20004000) header_log 0 2)
            (reads (λ _. 0xeaf30000) 0 1)
            capture
            txn
            armed_begun))
    × IsSynced 0 capture.mem
    × IsSynced 0 capture.io
    × (capture.alog_rd ≡ 2)
    × IsSynced (0 + 1) txn.cursor
core1_drain_example =
    core1_drain_lem (silent 0x20000000) (silent 0x20004000) header_log 2 100 0x20008000 0 1
      (λ _. 0xeaf30000) armed_begun
      (record { room = omega arith; synced = fresh-IsSynced; few = omega arith })
      (record { room = omega arith; synced = fresh-IsSynced; few = omega arith }) (omega arith)
      (omega arith) (omega arith) refl fresh-IsSynced (omega arith)
