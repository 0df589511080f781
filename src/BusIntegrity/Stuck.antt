-- ===== src/BusIntegrity/Stuck.antt =====
-- The verdicts on stuck lines and on an undriven bus, against the stream of reads.
use mathlib.Core.WellFounded.{Acc}
use msx_pulse.Shared.{
  ℕ, zero, suc, ◌+◌, ◌*◌, ◌/◌, ◌%◌, ◌^◌, ◌<◌, ◌≡◌, refl, ◌∙◌, bit_and, bit_or, bit_not, bit,
  bit-bit_or, bit-bit_and, bit-bit_not, bit-zero, bit_and-one, bit_and_lt, Bool, not, ◌&&◌, List,
  length, any, all, count, count_both-le, All, ◌==◌, ltb, leb, if◌then◌else◌, not-any-not, not-any,
  any_either, count_below, count_below_ext, count_below_from_zero, lt_wf, half-lt, add32, dec_lt,
  dif_pos, dif_neg, le_prop, arith, pow-suc,
}
use msx_pulse.BusIntegrity.{
  reset, stuck_data_hi, stuck_data_lo, popcount_loop, popcount16, stuck_addr, bus_undriven,
}
use msx_pulse.BusIntegrity.Fields.{
  Read, IsRead, feed_all, seen_levels, unseen_data, unseen_addr, counters, masks_fit,
}

-- After at least `min_reads` reads, and fewer than 2^32, D`k` is reported stuck high exactly when every read had it
-- high, and stuck low exactly when every read had it low; before that neither is reported. (With
-- no read at all neither is reported.)
pub stuck_data_lem :
    (k min_reads : ℕ) (rs : List Read)
    → k < 8
    → All IsRead rs
    → length rs < 2 ^ 32
    → let b = feed_all reset rs in
      let enough = leb min_reads (length rs) && ltb 0 (length rs) in
      (bit k (stuck_data_hi b min_reads) ≡ (enough && all (λ r. bit k r.data_byte) rs))
      × (bit k (stuck_data_lo b min_reads) ≡ (enough && all (λ r. not (bit k r.data_byte)) rs))
unfolding stuck_data_hi stuck_data_lo
stuck_data_lem k min_reads rs hk fits short =
    let b = feed_all reset rs in
    let v = masks_fit rs fits in
    ground (
      arith,
      counters rs short,
      seen_levels k rs,
      unseen_data k rs hk fits,
      bit-zero k,
      bit-bit_and k b.data_seen_hi (bit_not 8 b.data_seen_lo),
      bit-bit_and k b.data_seen_lo (bit_not 8 b.data_seen_hi),
      bit-bit_not 8 k b.data_seen_lo hk v.data_lo,
      bit-bit_not 8 k b.data_seen_hi hk v.data_hi,
      not-any-not (λ (r : Read). bit k r.data_byte) rs,
      not-any (λ (r : Read). bit k r.data_byte) rs,
      any_either (λ (r : Read). bit k r.data_byte) rs,
    )

low_bit : (v : ℕ) → (if bit 0 v then 1 else 0) ≡ v % 2
unfolding bit
low_bit v = ground arith

no_bits : (w v : ℕ) → v ≡ 0 → count_below w (λ k. bit k v) ≡ 0
unfolding count_below
no_bits zero v e = refl
no_bits (suc w) v e = rw e (ground (arith, no_bits w 0 refl, bit-zero w))

-- The loop of `popcount16` adds the set bits to its counter.
popcount_loop_lem :
    (w v c : ℕ) (acc : Acc ◌<◌ v)
    → v < 2 ^ w
    → c + w < 2 ^ 32
    → popcount_loop v c acc ≡ c + count_below w (λ k. bit k v)
unfolding popcount_loop bit count_below
popcount_loop_lem zero v c (Acc.intro _ smaller) hv hc = grind arith
popcount_loop_lem (suc w) v c (Acc.intro _ smaller) hv hc = elim (dec_lt 0 v) [
  | yes h ↦ rw (dif_pos _ le_prop h) (
      omega (
        arith,
        popcount_loop_lem w (v / 2) (add32 c (bit_and v 1)) (smaller (v / 2) (half-lt v h))
            (omega (arith, pow-suc 2 w)) (omega (arith, bit_and-one v)),
        bit_and-one v,
        count_below_from_zero w (λ k. bit k v),
        low_bit v,
      ))
  | no h ↦ rw (dif_neg _ h) (omega (arith, no_bits (suc w) v (omega arith)))
]

popcount16_lem : (v : ℕ) → v < 2 ^ 16 → popcount16 v ≡ count_below 16 (λ k. bit k v)
unfolding popcount16
popcount16_lem v hv = omega (arith, popcount_loop_lem 16 v 0 (lt_wf.apply v) hv (omega arith))

-- The address lines that took both levels in the stream.
abbrev pub toggles : List Read → ℕ → Bool
toggles rs k = any (λ r. bit k r.addr) rs && any (λ r. not (bit k r.addr)) rs

popcount_toggled :
    (rs : List Read)
    → All IsRead rs
    → let b = feed_all reset rs in
      popcount16 (bit_and b.addr_seen_hi b.addr_seen_lo) ≡ count_below 16 (toggles rs)
popcount_toggled rs fits =
    let b = feed_all reset rs in
    popcount16_lem (bit_and b.addr_seen_hi b.addr_seen_lo)
      (bit_and_lt 16 b.addr_seen_hi b.addr_seen_lo (masks_fit rs fits).addr_hi)
    ∙ count_below_ext 16 (λ k. bit k (bit_and b.addr_seen_hi b.addr_seen_lo)) (toggles rs)
        (λ k hk. ground (
          arith,
          bit-bit_and k b.addr_seen_hi b.addr_seen_lo,
          seen_levels k rs,
          unseen_addr k rs hk fits,
        ))

-- A`k` is reported stuck exactly when there were enough reads, of fewer than 2^32, at least `min_distinct_bits` of the
-- sixteen address lines toggled, and A`k` itself took one level only.
pub stuck_addr_lem :
    (k min_reads min_distinct_bits : ℕ) (rs : List Read)
    → k < 16
    → All IsRead rs
    → length rs < 2 ^ 32
    → bit k (stuck_addr (feed_all reset rs) min_reads min_distinct_bits) ≡ (
        leb min_reads (length rs)
        && leb min_distinct_bits (count_below 16 (toggles rs))
        && ltb 0 (length rs)
        && not (toggles rs k))
unfolding stuck_addr
stuck_addr_lem k min_reads d rs hk fits short =
    let b = feed_all reset rs in
    let v = masks_fit rs fits in
    let toggled = bit_and b.addr_seen_hi b.addr_seen_lo in
    let diverse = count_below 16 (toggles rs) in
    let toggled_lt : toggled < 2 ^ 16 = bit_and_lt 16 b.addr_seen_hi b.addr_seen_lo v.addr_hi in
    ground (
      arith,
      counters rs short,
      seen_levels k rs,
      unseen_addr k rs hk fits,
      bit-zero k,
      popcount_toggled rs fits,
      bit-bit_and k b.addr_seen_hi b.addr_seen_lo,
      bit-bit_or k b.addr_seen_hi b.addr_seen_lo,
      bit-bit_and k (bit_or b.addr_seen_hi b.addr_seen_lo) (bit_not 16 toggled),
      bit-bit_not 16 k toggled hk toggled_lt,
      any_either (λ (r : Read). bit k r.addr) rs,
    )

-- While the counters do not wrap, the bus is reported undriven exactly when there were enough
-- reads and more than half of them returned 0x00 or 0xFF.
pub bus_undriven_lem :
    (min_reads : ℕ) (rs : List Read)
    → length rs < 2 ^ 31
    → bus_undriven (feed_all reset rs) min_reads ≡ (
        leb min_reads (length rs)
        && ltb
            (length rs)
            (2 * (count (λ r. r.data_byte == 0x00) rs + count (λ r. r.data_byte == 0xff) rs)))
unfolding bus_undriven
bus_undriven_lem min_reads rs short = ground (
  arith,
  counters rs (omega arith),
  count_both-le (λ (r : Read). r.data_byte == 0x00) (λ (r : Read). r.data_byte == 0xff) rs
      (λ r. ground arith),
)
