-- ===== src/BusIntegrity/Tests.antt =====
-- The analyser on short streams.
use msx_pulse.Shared.{
  ℕ, ◌≡◌, refl, bit, false, not, ◌&&◌, List, [], ◌∷◌, length, any, all, count_below, ◌==◌, ◌!=◌,
  ltb, leb, arith,
}
use msx_pulse.BusIntegrity.{
  reset, feed, stuck_data_hi, stuck_data_lo, stuck_addr, popcount16, bus_undriven,
}
use msx_pulse.BusIntegrity.Fields.{Read, feed_all}
use msx_pulse.BusIntegrity.Stuck.{stuck_data_lem, stuck_addr_lem, toggles}
use msx_pulse.BusIntegrity.Checkpoints.{checkpoint, checkpoints_lem}

abbrev read : ℕ → ℕ → Read
read a d = record { addr = a; data_byte = d }

-- The first fetches of a boot with D3 stuck high.
abbrev d3_high : List Read
d3_high = read 0 0xfb ∷ read 1 0xcb ∷ read 2 0xdf ∷ read 3 0x0a ∷ []

d3_high_verdict :
    let b = feed_all reset d3_high in
    (stuck_data_hi b 4 ≡ 0x0a)
    × (stuck_data_lo b 4 ≡ 0)
    × (stuck_data_hi b 5 ≡ 0)
    × (b.cp_checked ≡ 0x0f)
    × (b.cp_failed ≡ 0x0f)
    × (stuck_addr b 4 2 ≡ 0xfffc)
    × (stuck_addr b 4 3 ≡ 0)
    × (bus_undriven b 4 ≡ false)
unfolding feed_all reset feed stuck_data_hi stuck_data_lo stuck_addr popcount16 bus_undriven
d3_high_verdict = (refl, refl, refl, refl, refl, refl, refl, refl)

stuck_data_example :
    let b = feed_all reset d3_high in
    let enough = leb 4 (length d3_high) && ltb 0 (length d3_high) in
    (bit 3 (stuck_data_hi b 4) ≡ (enough && all (λ r. bit 3 r.data_byte) d3_high))
    × (bit 3 (stuck_data_lo b 4) ≡ (enough && all (λ r. not (bit 3 r.data_byte)) d3_high))
stuck_data_example = stuck_data_lem 3 4 d3_high (omega arith) (omega arith) (omega arith)

stuck_addr_example : bit 0 (stuck_addr (feed_all reset d3_high) 4 2) ≡ (
    leb 4 (length d3_high)
    && leb 2 (count_below 16 (toggles d3_high))
    && ltb 0 (length d3_high)
    && not (toggles d3_high 0))
stuck_addr_example = stuck_addr_lem 0 4 2 d3_high (omega arith) (omega arith) (omega arith)

checkpoints_example :
    let b = feed_all reset d3_high in
    let cp = checkpoint 2 in
    (bit 2 b.cp_checked ≡ any (λ r. cp.addr == r.addr) d3_high)
    × (bit 2 b.cp_failed ≡ any (λ r. (cp.addr == r.addr) && (r.data_byte != cp.expected)) d3_high)
checkpoints_example = checkpoints_lem 2 d3_high (omega arith)
