-- ===== src/BootDiag.antt =====
-- src/firmware/boot_diag.h and boot_diag.c: triage of a round, and the state machine that runs it
-- on Core 0. The statics are one record, with the statics of the modules that it calls; calls to
-- hardware that leave no static behind are a trace.
pub mod Triage
pub mod Invariant
pub mod Progress
pub mod Drain
pub mod Running
mod Tests
use msx_pulse.Shared.{
  ℕ, zero, suc, ◌+◌, ◌%◌, ◌^◌, bit_and, bit_or, Bool, true, false, not, ◌&&◌, ◌||◌, ◌==◌, ltb, leb,
  if◌then◌else◌, ℤ, pos, negsuc, List, [], ◌∷◌, ◌++◌, get_or, add32, sub32, Option, none, some,
}
use msx_pulse.BusProbe.{
  Snapshot, LineState, active, stuck_hi, stuck_lo, ResetStatus, in_reset, ctrl_wait,
}
use msx_pulse.BusIntegrity
use msx_pulse.BusIntegrity.{BusIntegrity}
use msx_pulse.BootDetect
use msx_pulse.BootDetect.{BootDetect}
use msx_pulse.BootCapture
use msx_pulse.TxnCapture

-- Positions in `anomaly_flags`.
abbrev pub clk_absent : ℕ
clk_absent = 0

abbrev pub clk_out_of_range : ℕ
clk_out_of_range = 1

abbrev pub reset_stuck : ℕ
reset_stuck = 2

abbrev pub no_bus_cycles : ℕ
no_bus_cycles = 3

abbrev pub wait_stuck_low : ℕ
wait_stuck_low = 4

abbrev pub max_passes : ℕ
max_passes = 3

abbrev pub window_ms : ℕ
window_ms = 8000

abbrev pub min_reads : ℕ
min_reads = 64

abbrev pub min_addr_bits : ℕ
min_addr_bits = 6

-- `boot_diag_phase_t`
pub data Phase : Type 0 where
  idle pass_begin capturing settle done : Phase

-- `boot_diag_result_t`
pub record DiagResult : Type 0 where
  pub anomaly_flags : ℕ
  pub stuck_data_hi : ℕ
  pub stuck_data_lo : ℕ
  pub stuck_addr_mask : ℕ
  pub bus_undriven : Bool
  pub cp_checked : ℕ
  pub cp_failed : ℕ
  pub n_reads : ℕ
  pub phase_flags : ℕ
  pub last_confirmed : ℤ
  pub first_missing : ℤ
  pub early_ppi_writes : Bool
  pub basic_workarea_init : Bool
  pub passes_run : ℕ

abbrev pub is_in_reset : ResetStatus → Bool
is_in_reset in_reset = true
is_in_reset _ = false

abbrev pub is_stuck_lo : LineState → Bool
is_stuck_lo stuck_lo = true
is_stuck_lo _ = false

abbrev flag_if : Bool → ℕ → ℕ → ℕ
flag_if test k f = if test then bit_or f (2 ^ k) else f

-- `boot_diag_classify_anomalies`: the new `anomaly_flags`.
unfoldable pub classify_anomalies : Snapshot → ℕ → ℕ
classify_anomalies s events =
    let off = ltb s.clk_hz 3000000 || ltb 4000000 s.clk_hz in
    let clock =
      if s.clk_hz == 0
      then bit_or 0 (2 ^ clk_absent)
      else flag_if (events == 0) no_bus_cycles (flag_if off clk_out_of_range 0) in
    flag_if (is_stuck_lo (get_or s.ctrl ctrl_wait active)) wait_stuck_low
      (flag_if (is_in_reset s.reset) reset_stuck clock)

unfoldable pub round_should_stop : ℕ → ℕ → Bool
round_should_stop phase_flags anomaly_flags = bit_and phase_flags 0x1ff == 0x1ff

-- What a tick does to the hardware, in order.
pub data Call : Type 0 where
  alog_init capture_init txn_init capture_reset txn_reset pulse_reset capture_stop txn_stop : Call

pub record Diag : Type 0 where
  pub capture_active : Bool
  pub inited : Bool
  pub request : Bool
  pub phase : Phase
  pub pass : ℕ
  pub deadline_ms : ℕ
  pub anom_accum : ℕ
  pub result : DiagResult
  pub bi : BusIntegrity
  pub detect : BootDetect
  pub capture : BootCapture.Capture
  pub txn : TxnCapture.Capture

abbrev pub is_resting : Phase → Bool
is_resting idle = true
is_resting done = true
is_resting _ = false

unfoldable pub start : Diag → Diag
start d = if not (is_resting d.phase) then d else record d { request = true }

unfoldable pub current_pass : Diag → ℕ
current_pass d = if is_resting d.phase then d.result.passes_run else (d.pass + 1) % 2 ^ 8

-- `(int32_t)(now - deadline) >= 0`
unfoldable pub reached : ℕ → ℕ → Bool
reached now deadline = ltb (sub32 now deadline) (2 ^ 31)

-- `freeze_result`: the new `s_result`.
pub freeze : Diag → DiagResult
freeze d = record {
  anomaly_flags = d.anom_accum;
  stuck_data_hi = BusIntegrity.stuck_data_hi d.bi min_reads;
  stuck_data_lo = BusIntegrity.stuck_data_lo d.bi min_reads;
  stuck_addr_mask = BusIntegrity.stuck_addr d.bi min_reads min_addr_bits;
  bus_undriven = BusIntegrity.bus_undriven d.bi min_reads;
  cp_checked = d.bi.cp_checked;
  cp_failed = d.bi.cp_failed;
  n_reads = d.bi.n_reads;
  phase_flags = d.detect.phase_flags;
  last_confirmed = d.detect.last_confirmed;
  first_missing = d.detect.first_missing;
  early_ppi_writes = d.detect.early_ppi_writes;
  basic_workarea_init = d.detect.basic_workarea_init;
  passes_run = d.pass;
}

-- The cases of the `switch` of `boot_diag_tick`.
pub tick_resting : Diag → Diag × List Call
tick_resting d =
    let claimed =
      if d.inited
      then d
      else record d { inited = true; capture = BootCapture.init; txn = TxnCapture.init } in
    let begun = record claimed {
      request = false;
      detect = BootDetect.reset;
      bi = BusIntegrity.reset;
      pass = 0;
      anom_accum = 0;
      phase = pass_begin;
    } in
    if d.request
    then (begun, if d.inited then [] else alog_init ∷ capture_init ∷ txn_init ∷ [])
    else (d, [])

pub tick_pass_begin : ℕ → Diag → Diag × List Call
tick_pass_begin now_ms d = (
  record d {
    capture = BootCapture.reset d.capture;
    txn = TxnCapture.reset d.txn;
    capture_active = true;
    deadline_ms = add32 now_ms window_ms;
    phase = capturing;
  },
  capture_reset ∷ txn_reset ∷ pulse_reset ∷ [],
)

pub tick_capturing : ℕ → Diag → Diag × List Call
tick_capturing now_ms d =
    if reached now_ms d.deadline_ms
    then (
      record d { capture_active = false; deadline_ms = add32 now_ms 60; phase = settle },
      capture_stop ∷ txn_stop ∷ [],
    )
    else (d, [])

pub tick_settle : ℕ → Snapshot → Diag → Diag × List Call
tick_settle now_ms snap d =
    let counted = record d {
      anom_accum = bit_or d.anom_accum (classify_anomalies snap d.bi.n_reads);
      pass = (d.pass + 1) % 2 ^ 8;
    } in
    let stop =
      round_should_stop d.detect.phase_flags counted.anom_accum || leb max_passes counted.pass in
    let next =
      if stop
      then record counted { result = freeze counted; phase = done }
      else record counted { phase = pass_begin } in
    if reached now_ms d.deadline_ms then (next, []) else (d, [])

pub dispatch : Phase → ℕ → Snapshot → Diag → Diag × List Call
dispatch idle now_ms snap d = tick_resting d
dispatch done now_ms snap d = tick_resting d
dispatch pass_begin now_ms snap d = tick_pass_begin now_ms d
dispatch capturing now_ms snap d = tick_capturing now_ms d
dispatch settle now_ms snap d = tick_settle now_ms snap d

-- `boot_diag_tick`; `snap` is what `bus_probe_get` returns.
unfoldable pub tick : ℕ → Snapshot → Diag → Diag × List Call
unfolding dispatch tick_resting tick_pass_begin tick_capturing tick_settle
tick now_ms snap d = dispatch d.phase now_ms snap d

-- `boot_diag_core1_drain_step`
unfoldable pub core1_drain_step :
    BootCapture.Inputs → (ring : ℕ → ℕ) (waddr base : ℕ) → Diag → Option Diag
core1_drain_step i ring waddr base d = elim (BootCapture.drain i d.capture d.detect) [
  | none ↦ none
  | some (detect, n, capture) ↦ elim (TxnCapture.drain ring waddr base d.txn d.bi) [
    | none ↦ none
    | some (bi, n', txn) ↦
        some (record d { detect = detect; capture = capture; bi = bi; txn = txn })
  ]
]
