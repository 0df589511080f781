-- ===== src/BootDiag/Triage.antt =====
-- The anomalies of a round.
use msx_pulse.Shared.{
  ℕ, ◌^◌, ◌≡◌, bit, bit_or, Bool, not, ◌&&◌, ◌||◌, ◌==◌, ltb, leb, get_or, arith, if◌then◌else◌,
  bit-bit_or, bit_two_pow, bit-zero,
}
use msx_pulse.BusProbe.{Snapshot, active, ctrl_wait}
use msx_pulse.BootDiag.{
  classify_anomalies, is_in_reset, is_stuck_lo, clk_absent, clk_out_of_range, reset_stuck,
  no_bus_cycles, wait_stuck_low,
}

-- What the anomalies mean, by their number: no clock; a clock, but not of 3 to 4 MHz; the reset line
-- low; a clock and no bus cycle; /WAIT low throughout.
abbrev pub shows : Snapshot → ℕ → ℕ → Bool
shows s events k =
    (k == clk_absent) && (s.clk_hz == 0)
    || (k == clk_out_of_range)
      && not (s.clk_hz == 0)
      && not (leb 3000000 s.clk_hz && leb s.clk_hz 4000000)
    || (k == reset_stuck) && is_in_reset s.reset
    || (k == no_bus_cycles) && not (s.clk_hz == 0) && (events == 0)
    || (k == wait_stuck_low) && is_stuck_lo (get_or s.ctrl ctrl_wait active)

flag_if-bit :
    (test : Bool) (j k f : ℕ)
    → bit k (if test then bit_or f (2 ^ j) else f) ≡ (bit k f || test && (k == j))
flag_if-bit test j k f = ground (arith, bit-bit_or k f (2 ^ j), bit_two_pow k j)

flag-bit : (k j f : ℕ) → bit k (bit_or f (2 ^ j)) ≡ (bit k f || (k == j))
flag-bit k j f = ground (arith, bit-bit_or k f (2 ^ j), bit_two_pow k j)

clock_flags :
    (k : ℕ) (absent off quiet : Bool)
    → bit k (
        if absent
        then 1
        else (if quiet then bit_or (if off then 2 else 0) 8 else (if off then 2 else 0)))
      ≡ ((k == 0) && absent || (k == 1) && not absent && off || (k == 3) && not absent && quiet)
clock_flags k absent off quiet = ground (
  arith,
  flag-bit k 3 0,
  flag-bit k 3 2,
  bit_two_pow k 0,
  bit_two_pow k 1,
  bit_two_pow k 3,
  bit-zero k,
  bit-bit_or k 2 8,
  bit-bit_or k 0 8,
)

-- Each anomaly is flagged exactly on its condition, and no other bit is set.
pub anomalies_lem :
    (k events : ℕ) (s : Snapshot) → bit k (classify_anomalies s events) ≡ shows s events k
unfolding classify_anomalies
anomalies_lem k events s =
    rw
      (
        flag_if-bit (is_stuck_lo (get_or s.ctrl 6 active)) 4 k _,
        flag_if-bit (is_in_reset s.reset) 2 k _,
        clock_flags k (s.clk_hz == 0) (ltb s.clk_hz 3000000 || ltb 4000000 s.clk_hz) (events == 0),
      )
      (ground arith)
