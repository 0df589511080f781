-- ===== src/BusIntegrity/Checkpoints.antt =====
-- The reference checkpoints: `cp_checked` and `cp_failed` against the stream of reads.
use msx_pulse.Shared.{
  ℕ, zero, suc, ◌+◌, ◌%◌, ◌^◌, ◌≤◌, ◌<◌, ◌≡◌, refl, bit, bit-bit_or, bit_two_pow, bit-zero, Bool,
  false, ◌&&◌, ◌||◌, List, [], ◌∷◌, length, any, get_or, ◌==◌, ◌!=◌, arith,
}
use msx_pulse.BusIntegrity.{
  BusIntegrity, Checkpoint, v20_checkpoints, reset, accumulate, feed_checkpoint, feed_checkpoints,
  feed,
}
use msx_pulse.BusIntegrity.Fields.{Read, feed_all}

-- A mark of a checkpoint below 8 is not cut off by the cast to `uint8_t`.
mark_fits : (k : ℕ) → k < 8 → 2 ^ k % 2 ^ 8 ≡ 2 ^ k
mark_fits zero h = refl
mark_fits (suc zero) h = refl
mark_fits (suc (suc zero)) h = refl
mark_fits (suc (suc (suc zero))) h = refl
mark_fits (suc (suc (suc (suc zero)))) h = refl
mark_fits (suc (suc (suc (suc (suc zero))))) h = refl
mark_fits (suc (suc (suc (suc (suc (suc zero)))))) h = refl
mark_fits (suc (suc (suc (suc (suc (suc (suc zero))))))) h = refl
mark_fits (suc (suc (suc (suc (suc (suc (suc (suc k)))))))) h = absurd (omega arith)

abbrev visits : Checkpoint → ℕ → Bool
visits cp a = cp.addr == a

abbrev mismatches : Checkpoint → ℕ → ℕ → Bool
mismatches cp a d = (cp.addr == a) && (d != cp.expected)

-- The same at place `i` of a list; nothing is visited beyond its end.
abbrev visits_at : ℕ → List Checkpoint → ℕ → Bool
visits_at i [] a = false
visits_at zero (cp ∷ cps) a = visits cp a
visits_at (suc i) (cp ∷ cps) a = visits_at i cps a

abbrev mismatches_at : ℕ → List Checkpoint → ℕ → ℕ → Bool
mismatches_at i [] a d = false
mismatches_at zero (cp ∷ cps) a d = mismatches cp a d
mismatches_at (suc i) (cp ∷ cps) a d = mismatches_at i cps a d

module _ (a d : ℕ) where
  feed_checkpoint-bit :
      (j k : ℕ) (cp : Checkpoint) (b : BusIntegrity)
      → k < 8
      → (bit j (feed_checkpoint k cp a d b).cp_checked
          ≡ (bit j b.cp_checked || ((j == k) && visits cp a)))
        × (bit j (feed_checkpoint k cp a d b).cp_failed
            ≡ (bit j b.cp_failed || ((j == k) && mismatches cp a d)))
  unfolding feed_checkpoint
  feed_checkpoint-bit j k cp b hk = ground (
    arith,
    mark_fits k hk,
    bit-bit_or j b.cp_checked (2 ^ k),
    bit-bit_or j b.cp_failed (2 ^ k),
    bit_two_pow j k,
  )

  -- The loop from index `k` on leaves the bits below `k`.
  feed_checkpoints-bit_below :
      (j k : ℕ) (cps : List Checkpoint) (b : BusIntegrity)
      → j < k
      → k + length cps ≤ 8
      → (bit j (feed_checkpoints k cps a d b).cp_checked ≡ bit j b.cp_checked)
        × (bit j (feed_checkpoints k cps a d b).cp_failed ≡ bit j b.cp_failed)
  unfolding feed_checkpoints
  feed_checkpoints-bit_below j k [] b hj hk = ground arith
  feed_checkpoints-bit_below j k (cp ∷ cps) b hj hk = ground (
    arith,
    feed_checkpoint-bit j k cp b,
    feed_checkpoints-bit_below j (suc k) cps (feed_checkpoint k cp a d b),
  )

  feed_checkpoints-bit :
      (i j k : ℕ) (cps : List Checkpoint) (b : BusIntegrity)
      → j ≡ i + k
      → k + length cps ≤ 8
      → (bit j (feed_checkpoints k cps a d b).cp_checked
          ≡ (bit j b.cp_checked || visits_at i cps a))
        × (bit j (feed_checkpoints k cps a d b).cp_failed
            ≡ (bit j b.cp_failed || mismatches_at i cps a d))
  unfolding feed_checkpoints
  feed_checkpoints-bit i j k [] b hj hk = ground arith
  feed_checkpoints-bit zero j k (cp ∷ cps) b hj hk = ground (
    arith,
    feed_checkpoint-bit j k cp b,
    feed_checkpoints-bit_below j (suc k) cps (feed_checkpoint k cp a d b),
  )
  feed_checkpoints-bit (suc i) j k (cp ∷ cps) b hj hk = ground (
    arith,
    feed_checkpoint-bit j k cp b,
    feed_checkpoints-bit i j (suc k) cps (feed_checkpoint k cp a d b),
  )

feed-bit_checkpoint :
    (j : ℕ) (b : BusIntegrity) (a d : ℕ)
    → (bit j (feed b a d).cp_checked ≡ (bit j b.cp_checked || visits_at j v20_checkpoints a))
      × (bit j (feed b a d).cp_failed ≡ (bit j b.cp_failed || mismatches_at j v20_checkpoints a d))
unfolding feed accumulate
feed-bit_checkpoint j b a d =
    feed_checkpoints-bit a d j j 0 v20_checkpoints (accumulate b a d) (omega arith) (omega arith)

feed_all-bit_checkpoint :
    (j : ℕ) (b : BusIntegrity) (rs : List Read)
    → (bit j (feed_all b rs).cp_checked
        ≡ (bit j b.cp_checked || any (λ r. visits_at j v20_checkpoints r.addr) rs))
      × (bit j (feed_all b rs).cp_failed
          ≡ (bit j b.cp_failed || any (λ r. mismatches_at j v20_checkpoints r.addr r.data_byte) rs))
unfolding feed_all
feed_all-bit_checkpoint j b [] = ground arith
feed_all-bit_checkpoint j b (r ∷ rs) = ground (
  arith,
  feed-bit_checkpoint j b r.addr r.data_byte,
  feed_all-bit_checkpoint j (feed b r.addr r.data_byte) rs,
)

-- The `j`-th checkpoint; beyond the six, one that no theorem below speaks of.
abbrev pub checkpoint : ℕ → Checkpoint
checkpoint j = get_or v20_checkpoints j (record { addr = 0; expected = 0 })

at_checkpoint :
    (j a d : ℕ) (cps : List Checkpoint) (e : Checkpoint)
    → j < length cps
    → (visits_at j cps a ≡ visits (get_or cps j e) a)
      × (mismatches_at j cps a d ≡ mismatches (get_or cps j e) a d)
at_checkpoint j a d [] e h = absurd (omega arith)
at_checkpoint zero a d (cp ∷ cps) e h = (refl, refl)
at_checkpoint (suc j) a d (cp ∷ cps) e h = at_checkpoint j a d cps e (omega arith)

any_same : (p q : Read → Bool) (rs : List Read) → ((r : Read) → p r ≡ q r) → any p rs ≡ any q rs
any_same p q [] same = refl
any_same p q (r ∷ rs) same = ground (arith, same r, any_same p q rs same)

-- Bit `j` of `cp_checked` is set exactly when the address of checkpoint `j` was read, and bit `j`
-- of `cp_failed` exactly when some read of that address did not return the byte expected there.
pub checkpoints_lem :
    (j : ℕ) (rs : List Read)
    → j < 6
    → let b = feed_all reset rs in
      let cp = checkpoint j in
      (bit j b.cp_checked ≡ any (λ r. cp.addr == r.addr) rs)
      × (bit j b.cp_failed ≡ any (λ r. (cp.addr == r.addr) && (r.data_byte != cp.expected)) rs)
unfolding reset
checkpoints_lem j rs hj =
    let e : Checkpoint = record { addr = 0; expected = 0 } in
    let at = λ (r : Read). at_checkpoint j r.addr r.data_byte v20_checkpoints e hj in
    ground (
      arith,
      feed_all-bit_checkpoint j reset rs,
      bit-zero j,
      any_same (λ r. visits_at j v20_checkpoints r.addr) (λ r. visits (checkpoint j) r.addr) rs
          (λ r. (at r).0),
      any_same (λ r. mismatches_at j v20_checkpoints r.addr r.data_byte)
          (λ r. mismatches (checkpoint j) r.addr r.data_byte) rs (λ r. (at r).1),
    )
