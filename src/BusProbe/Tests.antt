-- ===== src/BusProbe/Tests.antt =====
-- The sampler on a short window.
use msx_pulse.Shared.{
  ℕ, ◌+◌, ◌<◌, ◌≡◌, refl, false, List, [], ◌∷◌, some, get_or, if◌then◌else◌, arith,
}
use msx_pulse.BusProbe.{Round, Snapshot, active, running, driven_cart, sample_once}
use msx_pulse.BusProbe.Levels.{in_window, high_at, line_verdict, reset_verdict, sample_once_lem}

abbrev round : ℕ → ℕ → Round
round now_us pins = record {
  now_us = now_us;
  gpio_in = pins;
  gpio_hi_in = 1;
  gate_now_us = now_us;
  counter = 35800;
}

-- Two rounds in the window, over the wrap of the clock, and one after it.
abbrev rounds : List Round
rounds = round 4294967290 0x7f010005 ∷ round 4 0x7f010003 ∷ round 25000 0 ∷ []

abbrev before : Snapshot
before = record {
  addr = [];
  data_lines = [];
  ctrl = [];
  clk_hz = 0;
  reset = running;
  timestamp_ms = 0;
}

sample_once_example :
    let seen = in_window 4294967280 rounds in
    (snap : Snapshot) × (sample_once 4294967280 4294967285 rounds 0 false 77 before ≡ some snap)
    × ((j : ℕ) → j < 16 → get_or snap.addr j active ≡ line_verdict (high_at j) seen)
    × ((j : ℕ) → j < 8 → get_or snap.data_lines j active ≡ line_verdict (high_at (16 + j)) seen)
    × ((j : ℕ) → j < 7 → get_or snap.ctrl j active ≡ line_verdict (high_at (24 + j)) seen)
    × (snap.reset ≡ (if false then driven_cart else reset_verdict seen))
    × (snap.timestamp_ms ≡ 77)
sample_once_example =
    sample_once_lem 4294967280 4294967285 rounds 0 77 false before
      (omega arith, (omega arith, (omega arith, tt))) refl
