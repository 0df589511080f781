-- ===== src/BusProbe.antt =====
-- src/firmware/bus_probe.h and bus_probe.c: the passive sampler of the bus pins. The clock, the
-- pins and the edge counter are read in each round of its loop and enter as a list of rounds.
pub mod Levels
pub mod Clock
mod Tests
use msx_pulse.Shared.{
  ℕ, zero, suc, ◌+◌, ◌*◌, ◌/◌, ◌%◌, ◌^◌, bit_and, bit_or, bit_not, Bool, true, false, not, ◌&&◌,
  ◌==◌, ◌!=◌, ltb, leb, if◌then◌else◌, Option, none, some, List, [], ◌∷◌, sub32,
}

-- `line_state_t`
pub data LineState : Type 0 where
  active stuck_hi stuck_lo : LineState

-- `reset_status_t`
pub data ResetStatus : Type 0 where
  running in_reset pulsing driven_cart : ResetStatus

abbrev pub ctrl_wait : ℕ
ctrl_wait = 6

abbrev pub ctrl_count : ℕ
ctrl_count = 7

-- `bus_probe_snapshot_t`
pub record Snapshot : Type 0 where
  pub addr : List LineState
  pub data_lines : List LineState
  pub ctrl : List LineState
  pub clk_hz : ℕ
  pub reset : ResetStatus
  pub timestamp_ms : ℕ

unfoldable pub classify_bit : Bool → Bool → LineState
classify_bit seen_hi seen_lo =
    if seen_hi && seen_lo then active else if seen_hi then stuck_hi else stuck_lo

-- `(mask >> i) & 1u`
abbrev pub pin : ℕ → ℕ → Bool
pin mask i = bit_and (mask / 2 ^ i) 1 != 0

-- One loop of `bus_probe_classify`: `n` lines, the first at GP `i`.
unfoldable pub classify_lines : ℕ → ℕ → ℕ → ℕ → List LineState
unfolding classify_bit
classify_lines zero i seen_hi seen_lo = []
classify_lines (suc n) i seen_hi seen_lo =
    classify_bit (pin seen_hi i) (pin seen_lo i) ∷ classify_lines n (suc i) seen_hi seen_lo

unfoldable pub classify : ℕ → ℕ → Snapshot → Snapshot
unfolding classify_lines
classify seen_hi seen_lo out = record out {
  addr = classify_lines 16 0 seen_hi seen_lo;
  data_lines = classify_lines 8 16 seen_hi seen_lo;
  ctrl = classify_lines ctrl_count 24 seen_hi seen_lo;
}

unfoldable pub edges_to_hz : ℕ → ℕ → ℕ
edges_to_hz edges gate_us = if gate_us == 0 then 0 else edges * 1000000 % 2 ^ 64 / gate_us % 2 ^ 32

unfoldable pub reset_status : Bool → Bool → Bool → ResetStatus
reset_status seen_hi seen_lo cart_driving =
    if cart_driving
    then driven_cart
    else if seen_hi && seen_lo
    then pulsing
    else if seen_hi
    then running
    else in_reset

abbrev pub window_us : ℕ
window_us = 20000

abbrev pub clk_gate_us : ℕ
clk_gate_us = 10000

-- What one round of the sampling loop reads: the clock for its test, GP0 to GP31, GP32, the clock
-- for the gate, and the edge counter.
pub record Round : Type 0 where
  pub now_us : ℕ
  pub gpio_in : ℕ
  pub gpio_hi_in : ℕ
  pub gate_now_us : ℕ
  pub counter : ℕ

-- The variables of the loop.
pub record Sampled : Type 0 where
  pub seen_hi : ℕ
  pub seen_lo : ℕ
  pub r_hi : Bool
  pub r_lo : Bool
  pub edges : ℕ
  pub gate_done : Bool

pub start : Sampled
start = record {
  seen_hi = 0;
  seen_lo = 0;
  r_hi = false;
  r_lo = false;
  edges = 0;
  gate_done = false;
}

unfoldable pub sample_round : ℕ → Round → Sampled → Sampled
sample_round clk_t0 r st =
    let high = bit_and r.gpio_hi_in 1 != 0 in
    let closing = not st.gate_done && leb clk_gate_us (sub32 r.gate_now_us clk_t0) in
    record {
      seen_hi = bit_or st.seen_hi r.gpio_in;
      seen_lo = bit_or st.seen_lo (bit_not 32 r.gpio_in);
      r_hi = if high then true else st.r_hi;
      r_lo = if high then st.r_lo else true;
      edges = if closing then r.counter else st.edges;
      gate_done = if closing then true else st.gate_done;
    }

-- `while ((time_us_32() - t0) < BP_WINDOW_US)`; `none` if the rounds given end before the window.
pub sample_loop : ℕ → ℕ → List Round → Sampled → Option Sampled
sample_loop t0 clk_t0 [] st = none
sample_loop t0 clk_t0 (r ∷ rs) st =
    let rest = sample_loop t0 clk_t0 rs (sample_round clk_t0 r st) in
    if ltb (sub32 r.now_us t0) window_us then rest else some st

-- What `bus_probe_sample_once` publishes. `last_counter` is the counter after the loop, `old` the
-- snapshot structure on the stack before it is filled in.
unfoldable pub sample_once :
    (t0 clk_t0 : ℕ)
    → List Round
    → (last_counter : ℕ) (cart_driving : Bool) (now_ms : ℕ) → Snapshot
    → Option Snapshot
unfolding sample_loop sample_round start classify edges_to_hz reset_status
sample_once t0 clk_t0 rs last_counter cart_driving now_ms old =
    elim (sample_loop t0 clk_t0 rs start) [
      | none ↦ none
      | some st ↦
          let edges = if st.gate_done then st.edges else last_counter in
          some (record (classify st.seen_hi st.seen_lo old) {
            clk_hz = edges_to_hz edges clk_gate_us;
            reset = reset_status st.r_hi st.r_lo cart_driving;
            timestamp_ms = now_ms;
          })
    ]
