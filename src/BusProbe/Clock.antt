-- ===== src/BusProbe/Clock.antt =====
-- The conversion of edges to Hz.
use msx_pulse.Shared.{
  ℕ, ◌+◌, ◌*◌, ◌/◌, ◌%◌, ◌^◌, ◌≤◌, ◌<◌, ◌≡◌, ◌==◌, arith, ap, ◌∙◌, false, div-add-mod', mod-lt,
}
use msx_pulse.BusProbe.{edges_to_hz}

-- For any uint32_t count of edges and a gate that is not 0, no intermediate value wraps, and if the
-- result fits a uint32_t it is `edges` per `gate_us` microseconds in Hz, rounded down.
pub edges_to_hz_lem :
    (edges gate_us : ℕ)
    → edges < 2 ^ 32
    → 0 < gate_us
    → edges * 1000000 / gate_us < 2 ^ 32
    → let hz = edges_to_hz edges gate_us in
      (hz * gate_us ≤ edges * 1000000) × (edges * 1000000 < hz * gate_us + gate_us)
unfolding edges_to_hz
edges_to_hz_lem edges gate_us small open_gate fits =
    let q = edges * 1000000 / gate_us in
    let whole : edges * 1000000 % 2 ^ 64 ≡ edges * 1000000 = omega arith in
    let same : edges * 1000000 % 2 ^ 64 / gate_us % 2 ^ 32 ≡ q =
      ap (λ (t : ℕ). t / gate_us % 2 ^ 32) whole ∙ omega arith in
    let shut_gate : (gate_us == 0) ≡ false = ground arith in
    rw (shut_gate, same)
      (
        omega (arith, div-add-mod' (edges * 1000000) gate_us),
        omega (
          arith,
          div-add-mod' (edges * 1000000) gate_us,
          mod-lt (edges * 1000000) {m = gate_us} open_gate,
        ),
      )

-- With the 10 ms gate of the sampler and its 16-bit counter the result is exactly 100 times the
-- count, so that each count below 65536 stands for its own frequency.
pub edges_to_hz_gate : (edges : ℕ) → edges < 2 ^ 16 → edges_to_hz edges 10000 ≡ 100 * edges
unfolding edges_to_hz
edges_to_hz_gate edges small = omega arith
