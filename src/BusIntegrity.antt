-- ===== src/BusIntegrity.antt =====
-- src/firmware/bus_integrity.h and bus_integrity.c: the analyser of the read stream.
-- A mask is a number, `|` and `&` are those of the native numbers, and a counter wraps as it does
-- in a uint32_t.
pub mod Fields
pub mod Stuck
pub mod Checkpoints
pub mod Order
mod Tests
use mathlib.Core.WellFounded.{Acc}
use msx_pulse.Shared.{
  ℕ, zero, suc, ◌+◌, ◌*◌, ◌/◌, ◌%◌, ◌^◌, ◌<◌, bit_and, bit_or, bit_not, Bool, true, false, List, [],
  ◌∷◌, if◌then◌else◌, ltb, ◌==◌, ◌!=◌, dite, dec_lt, lt_wf, half-lt, add32,
}

pub record Checkpoint : Type 0 where
  pub addr : ℕ
  pub expected : ℕ

-- `V20_CHECKPOINTS`
abbrev pub v20_checkpoints : List Checkpoint
v20_checkpoints =
    record { addr = 0x0000; expected = 0xf3 }
    ∷ record { addr = 0x0001; expected = 0xc3 }
    ∷ record { addr = 0x0002; expected = 0xd7 }
    ∷ record { addr = 0x0003; expected = 0x02 }
    ∷ record { addr = 0x02d7; expected = 0x3e }
    ∷ record { addr = 0x02d8; expected = 0x82 }
    ∷ []

pub record BusIntegrity : Type 0 where
  pub data_seen_hi : ℕ
  pub data_seen_lo : ℕ
  pub addr_seen_hi : ℕ
  pub addr_seen_lo : ℕ
  pub n_reads : ℕ
  pub n_allzero : ℕ
  pub n_allone : ℕ
  pub cp_checked : ℕ
  pub cp_failed : ℕ

pub reset : BusIntegrity
reset = record {
  data_seen_hi = 0;
  data_seen_lo = 0;
  addr_seen_hi = 0;
  addr_seen_lo = 0;
  n_reads = 0;
  n_allzero = 0;
  n_allone = 0;
  cp_checked = 0;
  cp_failed = 0;
}

-- The body of the loop over the checkpoints, at index `k`.
pub feed_checkpoint : ℕ → Checkpoint → ℕ → ℕ → BusIntegrity → BusIntegrity
feed_checkpoint k cp addr data_byte b =
    let mark : ℕ = 2 ^ k % 2 ^ 8 in
    let checked = record b { cp_checked = bit_or b.cp_checked mark } in
    if cp.addr == addr
    then (if data_byte != cp.expected
        then record checked { cp_failed = bit_or checked.cp_failed mark }
        else checked)
    else b

pub feed_checkpoints : ℕ → List Checkpoint → ℕ → ℕ → BusIntegrity → BusIntegrity
feed_checkpoints k [] addr data_byte b = b
feed_checkpoints k (cp ∷ cps) addr data_byte b =
    feed_checkpoints (suc k) cps addr data_byte (feed_checkpoint k cp addr data_byte b)

pub accumulate : BusIntegrity → ℕ → ℕ → BusIntegrity
accumulate b addr data_byte = record b {
  n_reads = add32 b.n_reads 1;
  data_seen_hi = bit_or b.data_seen_hi data_byte;
  data_seen_lo = bit_or b.data_seen_lo (bit_not 8 data_byte);
  addr_seen_hi = bit_or b.addr_seen_hi addr;
  addr_seen_lo = bit_or b.addr_seen_lo (bit_not 16 addr);
  n_allzero = if data_byte == 0x00 then add32 b.n_allzero 1 else b.n_allzero;
  n_allone = if data_byte == 0xff then add32 b.n_allone 1 else b.n_allone;
}

unfoldable pub feed : BusIntegrity → ℕ → ℕ → BusIntegrity
unfolding accumulate feed_checkpoint feed_checkpoints
feed b addr data_byte =
    feed_checkpoints 0 v20_checkpoints addr data_byte (accumulate b addr data_byte)

unfoldable pub stuck_data_hi : BusIntegrity → ℕ → ℕ
stuck_data_hi b min_reads =
    if ltb b.n_reads min_reads then 0 else bit_and b.data_seen_hi (bit_not 8 b.data_seen_lo)

unfoldable pub stuck_data_lo : BusIntegrity → ℕ → ℕ
stuck_data_lo b min_reads =
    if ltb b.n_reads min_reads then 0 else bit_and b.data_seen_lo (bit_not 8 b.data_seen_hi)

-- `while (v) { c += v & 1u; v >>= 1; }`
pub popcount_loop : (v c : ℕ) → Acc ◌<◌ v → ℕ
popcount_loop v c (Acc.intro _ smaller) =
    dite (dec_lt 0 v)
      (λ h. popcount_loop (v / 2) (add32 c (bit_and v 1)) (smaller (v / 2) (half-lt v h))) (λ _. c)

unfoldable pub popcount16 : ℕ → ℕ
unfolding popcount_loop lt_wf dec_lt
popcount16 v = popcount_loop v 0 (lt_wf.apply v)

unfoldable pub stuck_addr : BusIntegrity → ℕ → ℕ → ℕ
stuck_addr b min_reads min_distinct_bits =
    let toggled = bit_and b.addr_seen_hi b.addr_seen_lo in
    let seen = bit_or b.addr_seen_hi b.addr_seen_lo in
    if ltb b.n_reads min_reads
    then 0
    else if ltb (popcount16 toggled) min_distinct_bits
    then 0
    else bit_and seen (bit_not 16 toggled)

unfoldable pub bus_undriven : BusIntegrity → ℕ → Bool
bus_undriven b min_reads =
    let bad = add32 b.n_allzero b.n_allone in
    if ltb b.n_reads min_reads then false else ltb b.n_reads (bad * 2 % 2 ^ 32)
