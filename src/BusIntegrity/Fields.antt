-- ===== src/BusIntegrity/Fields.antt =====
-- What the analyser keeps of a stream of reads, as tests over the stream.
use msx_pulse.Shared.{
  ℕ, suc, ◌+◌, ◌^◌, ◌<◌, ◌≡◌, bit_not, bit, bit-bit_or, bit-bit_not, bit-zero, bit_or_lt, not, ◌||◌,
  List, [], ◌∷◌, length, any, count, All, ◌==◌, arith,
}
use msx_pulse.BusIntegrity.{
  BusIntegrity, Checkpoint, v20_checkpoints, reset, feed_checkpoint, feed_checkpoints, accumulate,
  feed,
}

-- One driven read of the bus.
pub record Read : Type 0 where
  pub addr : ℕ
  pub data_byte : ℕ

-- It fits the bus.
abbrev pub IsRead : Read → Type 0
IsRead r = (r.addr < 2 ^ 16) × (r.data_byte < 2 ^ 8)

unfoldable pub feed_all : BusIntegrity → List Read → BusIntegrity
feed_all b [] = b
feed_all b (r ∷ rs) = feed_all (feed b r.addr r.data_byte) rs

-- The loop over the checkpoints leaves all but their two masks.
record SameSeen (b c : BusIntegrity) : Type 0 where
  data_hi : c.data_seen_hi ≡ b.data_seen_hi
  data_lo : c.data_seen_lo ≡ b.data_seen_lo
  addr_hi : c.addr_seen_hi ≡ b.addr_seen_hi
  addr_lo : c.addr_seen_lo ≡ b.addr_seen_lo
  reads : c.n_reads ≡ b.n_reads
  allzero : c.n_allzero ≡ b.n_allzero
  allone : c.n_allone ≡ b.n_allone

feed_checkpoint-SameSeen :
    (k : ℕ) (cp : Checkpoint) (a d : ℕ) (b : BusIntegrity) → SameSeen b (feed_checkpoint k cp a d b)
unfolding feed_checkpoint
feed_checkpoint-SameSeen k cp a d b = ground arith

feed_checkpoints-SameSeen :
    (k : ℕ) (cps : List Checkpoint) (a d : ℕ) (b : BusIntegrity)
    → SameSeen b (feed_checkpoints k cps a d b)
unfolding feed_checkpoints
feed_checkpoints-SameSeen k [] a d b = ground arith
feed_checkpoints-SameSeen k (cp ∷ cps) a d b = ground (
  arith,
  feed_checkpoint-SameSeen k cp a d b,
  feed_checkpoints-SameSeen (suc k) cps a d (feed_checkpoint k cp a d b),
)

feed-SameSeen : (b : BusIntegrity) (a d : ℕ) → SameSeen (accumulate b a d) (feed b a d)
unfolding feed
feed-SameSeen b a d = feed_checkpoints-SameSeen 0 v20_checkpoints a d (accumulate b a d)

-- The masks of seen levels, bit by bit.
module _ (k : ℕ) where
  feed-bit_hi :
      (b : BusIntegrity) (a d : ℕ)
      → (bit k (feed b a d).data_seen_hi ≡ (bit k b.data_seen_hi || bit k d))
        × (bit k (feed b a d).addr_seen_hi ≡ (bit k b.addr_seen_hi || bit k a))
  unfolding accumulate
  feed-bit_hi b a d =
      ground
        (arith, feed-SameSeen b a d, bit-bit_or k b.data_seen_hi d, bit-bit_or k b.addr_seen_hi a)

  feed-bit_data_lo :
      (b : BusIntegrity) (a d : ℕ)
      → k < 8
      → d < 2 ^ 8
      → bit k (feed b a d).data_seen_lo ≡ (bit k b.data_seen_lo || not (bit k d))
  unfolding accumulate
  feed-bit_data_lo b a d hk hd = ground (
    arith,
    feed-SameSeen b a d,
    bit-bit_or k b.data_seen_lo (bit_not 8 d),
    bit-bit_not 8 k d hk hd,
  )

  feed-bit_addr_lo :
      (b : BusIntegrity) (a d : ℕ)
      → k < 16
      → a < 2 ^ 16
      → bit k (feed b a d).addr_seen_lo ≡ (bit k b.addr_seen_lo || not (bit k a))
  unfolding accumulate
  feed-bit_addr_lo b a d hk ha = ground (
    arith,
    feed-SameSeen b a d,
    bit-bit_or k b.addr_seen_lo (bit_not 16 a),
    bit-bit_not 16 k a hk ha,
  )

  -- Over a stream: a level was seen if it was seen before, or in some read.
  feed_all-bit_hi :
      (b : BusIntegrity) (rs : List Read)
      → (bit k (feed_all b rs).data_seen_hi
          ≡ (bit k b.data_seen_hi || any (λ r. bit k r.data_byte) rs))
        × (bit k (feed_all b rs).addr_seen_hi
            ≡ (bit k b.addr_seen_hi || any (λ r. bit k r.addr) rs))
  unfolding feed_all
  feed_all-bit_hi b [] = ground arith
  feed_all-bit_hi b (r ∷ rs) =
      ground
        (arith, feed-bit_hi b r.addr r.data_byte, feed_all-bit_hi (feed b r.addr r.data_byte) rs)

  feed_all-bit_data_lo :
      (b : BusIntegrity) (rs : List Read)
      → k < 8
      → All IsRead rs
      → bit k (feed_all b rs).data_seen_lo
        ≡ (bit k b.data_seen_lo || any (λ r. not (bit k r.data_byte)) rs)
  unfolding feed_all
  feed_all-bit_data_lo b [] hk fits = ground arith
  feed_all-bit_data_lo b (r ∷ rs) hk fits = ground (
    arith,
    feed-bit_data_lo b r.addr r.data_byte hk fits.0.1,
    feed_all-bit_data_lo (feed b r.addr r.data_byte) rs hk fits.1,
  )

  feed_all-bit_addr_lo :
      (b : BusIntegrity) (rs : List Read)
      → k < 16
      → All IsRead rs
      → bit k (feed_all b rs).addr_seen_lo
        ≡ (bit k b.addr_seen_lo || any (λ r. not (bit k r.addr)) rs)
  unfolding feed_all
  feed_all-bit_addr_lo b [] hk fits = ground arith
  feed_all-bit_addr_lo b (r ∷ rs) hk fits = ground (
    arith,
    feed-bit_addr_lo b r.addr r.data_byte hk fits.0.0,
    feed_all-bit_addr_lo (feed b r.addr r.data_byte) rs hk fits.1,
  )

-- The counters, while none of them wraps.
feed_all-counts :
    (b : BusIntegrity) (rs : List Read)
    → b.n_reads + length rs < 2 ^ 32
    → b.n_allzero + length rs < 2 ^ 32
    → b.n_allone + length rs < 2 ^ 32
    → ((feed_all b rs).n_reads ≡ b.n_reads + length rs)
      × ((feed_all b rs).n_allzero ≡ b.n_allzero + count (λ r. r.data_byte == 0x00) rs)
      × ((feed_all b rs).n_allone ≡ b.n_allone + count (λ r. r.data_byte == 0xff) rs)
unfolding feed_all accumulate
feed_all-counts b [] h0 h1 h2 = ground arith
feed_all-counts b (r ∷ rs) h0 h1 h2 =
    ground
      (arith, feed-SameSeen b r.addr r.data_byte, feed_all-counts (feed b r.addr r.data_byte) rs)

-- The masks of an analyser in use fit their words.
pub record IsValid (b : BusIntegrity) : Type 0 where
  pub data_hi : b.data_seen_hi < 2 ^ 8
  pub data_lo : b.data_seen_lo < 2 ^ 8
  pub addr_hi : b.addr_seen_hi < 2 ^ 16
  pub addr_lo : b.addr_seen_lo < 2 ^ 16

feed-IsValid :
    (b : BusIntegrity) (r : Read) → IsRead r → IsValid b → IsValid (feed b r.addr r.data_byte)
unfolding accumulate
feed-IsValid b r fits v = ground (
  arith,
  feed-SameSeen b r.addr r.data_byte,
  bit_or_lt 8 b.data_seen_hi r.data_byte,
  bit_or_lt 8 b.data_seen_lo (bit_not 8 r.data_byte),
  bit_or_lt 16 b.addr_seen_hi r.addr,
  bit_or_lt 16 b.addr_seen_lo (bit_not 16 r.addr),
)

feed_all-IsValid :
    (b : BusIntegrity) (rs : List Read) → All IsRead rs → IsValid b → IsValid (feed_all b rs)
unfolding feed_all
feed_all-IsValid b [] fits v = v
feed_all-IsValid b (r ∷ rs) fits v =
    feed_all-IsValid (feed b r.addr r.data_byte) rs fits.1 (feed-IsValid b r fits.0 v)

-- What the analyser holds after a stream that it has seen from its reset.
pub seen_levels :
    (k : ℕ) (rs : List Read)
    → (bit k (feed_all reset rs).data_seen_hi ≡ any (λ r. bit k r.data_byte) rs)
      × (bit k (feed_all reset rs).addr_seen_hi ≡ any (λ r. bit k r.addr) rs)
unfolding reset
seen_levels k rs = ground (arith, feed_all-bit_hi k reset rs, bit-zero k)

pub unseen_data :
    (k : ℕ) (rs : List Read)
    → k < 8
    → All IsRead rs
    → bit k (feed_all reset rs).data_seen_lo ≡ any (λ r. not (bit k r.data_byte)) rs
unfolding reset
unseen_data k rs hk fits = ground (arith, feed_all-bit_data_lo k reset rs hk fits, bit-zero k)

pub unseen_addr :
    (k : ℕ) (rs : List Read)
    → k < 16
    → All IsRead rs
    → bit k (feed_all reset rs).addr_seen_lo ≡ any (λ r. not (bit k r.addr)) rs
unfolding reset
unseen_addr k rs hk fits = ground (arith, feed_all-bit_addr_lo k reset rs hk fits, bit-zero k)

pub counters :
    (rs : List Read)
    → length rs < 2 ^ 32
    → ((feed_all reset rs).n_reads ≡ length rs)
      × ((feed_all reset rs).n_allzero ≡ count (λ r. r.data_byte == 0x00) rs)
      × ((feed_all reset rs).n_allone ≡ count (λ r. r.data_byte == 0xff) rs)
unfolding reset
counters rs h = ground (arith, feed_all-counts reset rs)

pub masks_fit : (rs : List Read) → All IsRead rs → IsValid (feed_all reset rs)
unfolding reset
masks_fit rs fits = feed_all-IsValid reset rs fits (ground arith)
