-- ===== src/BusIntegrity/Order.antt =====
-- The analyser forgets the order of the reads.
use mathlib.Core.List.{Perm, Permᴰ}
use mathlib.Core.Logic.{∥∥₁_elim}
use msx_pulse.Shared.{
  ℕ, suc, ◌%◌, ◌^◌, ◌≡◌, refl, sym, ap, ap₂, ◌∙◌, bit_not, bit_or_right_comm, List, [], ◌∷◌, arith,
}
use msx_pulse.BusIntegrity.{
  BusIntegrity, Checkpoint, v20_checkpoints, accumulate, feed_checkpoint, feed_checkpoints, feed,
}
use msx_pulse.BusIntegrity.Fields.{Read, feed_all}

BusIntegrity-set : IsSet BusIntegrity
BusIntegrity-set = hlevel

-- The steps on one read commute with those on another.
module _ (a d a' d' : ℕ) where
  feed_checkpoint_comm :
      (k j : ℕ) (cp cp' : Checkpoint) (b : BusIntegrity)
      → feed_checkpoint k cp a d (feed_checkpoint j cp' a' d' b)
        ≡ feed_checkpoint j cp' a' d' (feed_checkpoint k cp a d b)
  unfolding feed_checkpoint
  feed_checkpoint_comm k j cp cp' b = ground (
    arith,
    bit_or_right_comm b.cp_checked (2 ^ k % 2 ^ 8) (2 ^ j % 2 ^ 8),
    bit_or_right_comm b.cp_failed (2 ^ k % 2 ^ 8) (2 ^ j % 2 ^ 8),
  )

  feed_checkpoint-feed_checkpoints :
      (k j : ℕ) (cp : Checkpoint) (cps : List Checkpoint) (b : BusIntegrity)
      → feed_checkpoint k cp a d (feed_checkpoints j cps a' d' b)
        ≡ feed_checkpoints j cps a' d' (feed_checkpoint k cp a d b)
  unfolding feed_checkpoints
  feed_checkpoint-feed_checkpoints k j cp [] b = refl
  feed_checkpoint-feed_checkpoints k j cp (cp' ∷ cps) b =
      feed_checkpoint-feed_checkpoints k (suc j) cp cps (feed_checkpoint j cp' a' d' b)
      ∙ ap (feed_checkpoints (suc j) cps a' d') (feed_checkpoint_comm k j cp cp' b)

  feed_checkpoints_comm :
      (k j : ℕ) (cps cps' : List Checkpoint) (b : BusIntegrity)
      → feed_checkpoints k cps a d (feed_checkpoints j cps' a' d' b)
        ≡ feed_checkpoints j cps' a' d' (feed_checkpoints k cps a d b)
  unfolding feed_checkpoints
  feed_checkpoints_comm k j [] cps' b = refl
  feed_checkpoints_comm k j (cp ∷ cps) cps' b =
      ap (feed_checkpoints (suc k) cps a d) (feed_checkpoint-feed_checkpoints k j cp cps' b)
      ∙ feed_checkpoints_comm (suc k) j cps cps' (feed_checkpoint k cp a d b)

  accumulate_comm :
      (b : BusIntegrity) → accumulate (accumulate b a' d') a d ≡ accumulate (accumulate b a d) a' d'
  unfolding accumulate
  accumulate_comm b = ground (
    arith,
    bit_or_right_comm b.data_seen_hi d d',
    bit_or_right_comm b.data_seen_lo (bit_not 8 d) (bit_not 8 d'),
    bit_or_right_comm b.addr_seen_hi a a',
    bit_or_right_comm b.addr_seen_lo (bit_not 16 a) (bit_not 16 a'),
  )

  accumulate-feed_checkpoint :
      (k : ℕ) (cp : Checkpoint) (b : BusIntegrity)
      → accumulate (feed_checkpoint k cp a' d' b) a d
        ≡ feed_checkpoint k cp a' d' (accumulate b a d)
  unfolding accumulate feed_checkpoint
  accumulate-feed_checkpoint k cp b = ground arith

  accumulate-feed_checkpoints :
      (k : ℕ) (cps : List Checkpoint) (b : BusIntegrity)
      → accumulate (feed_checkpoints k cps a' d' b) a d
        ≡ feed_checkpoints k cps a' d' (accumulate b a d)
  unfolding feed_checkpoints
  accumulate-feed_checkpoints k [] b = refl
  accumulate-feed_checkpoints k (cp ∷ cps) b =
      accumulate-feed_checkpoints (suc k) cps (feed_checkpoint k cp a' d' b)
      ∙ ap (feed_checkpoints (suc k) cps a' d') (accumulate-feed_checkpoint k cp b)

-- A read as the two parts of `feed`.
feed_parts :
    (b : BusIntegrity) (a d : ℕ)
    → feed b a d ≡ feed_checkpoints 0 v20_checkpoints a d (accumulate b a d)
unfolding feed
feed_parts b a d = refl

feed_comm : (b : BusIntegrity) (a d a' d' : ℕ) → feed (feed b a d) a' d' ≡ feed (feed b a' d') a d
feed_comm b a d a' d' =
    feed_parts (feed b a d) a' d'
    ∙ ap (λ (x : BusIntegrity). loop a' d' (accumulate x a' d')) (feed_parts b a d)
    ∙ ap (loop a' d') (accumulate-feed_checkpoints a' d' a d 0 cps (accumulate b a d))
    ∙ ap (λ (x : BusIntegrity). loop a' d' (loop a d x)) (accumulate_comm a' d' a d b)
    ∙ feed_checkpoints_comm a' d' a d 0 0 cps cps (accumulate (accumulate b a' d') a d)
    ∙ ap (loop a d) (sym (accumulate-feed_checkpoints a d a' d' 0 cps (accumulate b a' d')))
    ∙ ap (λ (x : BusIntegrity). loop a d (accumulate x a d)) (sym (feed_parts b a' d'))
    ∙ sym (feed_parts (feed b a' d') a d)
  where
    cps : List Checkpoint
    cps = v20_checkpoints

    loop : ℕ → ℕ → BusIntegrity → BusIntegrity
    loop x y = feed_checkpoints 0 cps x y

feed_all-Permᴰ :
    {rs ss : List Read} (b : BusIntegrity) → Permᴰ rs ss → feed_all b rs ≡ feed_all b ss
unfolding feed_all
feed_all-Permᴰ b Permᴰ.nil = refl
feed_all-Permᴰ b (Permᴰ.cons {a = r} {l₂ = ss} e p) =
    feed_all-Permᴰ (feed b r.addr r.data_byte) p
    ∙ ap (λ (x : Read). feed_all (feed b x.addr x.data_byte) ss) e
feed_all-Permᴰ b (Permᴰ.swap {a = q} {b = r} {l = rs} e e') =
    ap (λ (x : BusIntegrity). feed_all x rs) (feed_comm b q.addr q.data_byte r.addr r.data_byte)
    ∙ ap₂ (λ (x y : Read). feed_all (feed (feed b x.addr x.data_byte) y.addr y.data_byte) rs) e' e
feed_all-Permᴰ b (Permᴰ.trans p p') = feed_all-Permᴰ b p ∙ feed_all-Permᴰ b p'

-- The analyser's whole state, and so every verdict, depends only on which reads it was fed and how
-- often, not on their order: from any state, two streams that are permutations of one another
-- lead to the same state.
pub feed_all-Perm :
    (b : BusIntegrity) (rs ss : List Read) → Perm rs ss → feed_all b rs ≡ feed_all b ss
feed_all-Perm b rs ss p = ∥∥₁_elim p (BusIntegrity-set _ _) (feed_all-Permᴰ b)
