-- ===== src/BootCapture/Ring.antt =====
-- A ring that the DMA fills, and what a drain of it hands on.
use msx_pulse.Shared.{
  ℕ, zero, suc, ◌+◌, ◌-◌, ◌*◌, ◌/◌, ◌%◌, ◌^◌, ◌≤◌, ◌<◌, ◌≡◌, refl, ap, ap₂, ◌∙◌, bit_and,
  bit_and_mask, false, ◌==◌, ==_refl, ==_of_ne, dec_lt, if◌then◌else◌, some, add32, sub32, arith,
}
use msx_pulse.BootCapture.{
  Cursor, fresh, ring_len, dma_total, overrun_guard, drain_loop, drain_from, drain_ring,
}

-- The ring after the first `n` of the words `h 0`, `h 1`, … were written round it.
unfoldable pub filled : (ℕ → ℕ) → ℕ → ℕ → ℕ
filled h zero i = 0
filled h (suc n) i = if i == n % ring_len then h n else filled h n i

-- The write-address register then, `base` being the ring's address.
abbrev pub write_addr : ℕ → ℕ → ℕ
write_addr base n = base + 4 * (n % ring_len)

-- The words `h a`, …, `h (a + n - 1)`, handed to `step` in order.
unfoldable pub fold_words {ℓ} : {S : Type ℓ} → (ℕ → S → S) → (ℕ → ℕ) → ℕ → ℕ → S → S
fold_words step h a zero s = s
fold_words step h a (suc n) s = fold_words step h (suc a) n (step (h a) s)

-- Each of the last `ring_len` words is still where it was written.
filled_at : (h : ℕ → ℕ) (n j : ℕ) → j < n → n ≤ j + ring_len → filled h n (j % ring_len) ≡ h j
unfolding filled
filled_at h zero j hj near = absurd (omega arith)
filled_at h (suc n) j hj near = elim (dec_lt j n) [
  | yes before ↦
      rw (==_of_ne (j % ring_len) (n % ring_len) (omega arith))
        (filled_at h n j before (omega arith))
  | no after ↦ let e : j ≡ n = omega arith in rw (e, ==_refl (n % ring_len)) refl
]

module _ {ℓ} {S : Type ℓ} (step : ℕ → S → S) (h : ℕ → ℕ) (ring : ℕ → ℕ) where
  drain_loop_lem :
      (fuel a n : ℕ) (s : S)
      → n < fuel
      → n ≤ ring_len
      → ((j : ℕ) → a ≤ j → j < a + n → ring (j % ring_len) ≡ h j)
      → drain_loop step ring fuel (a % 2 ^ 32) ((a + n) % 2 ^ 32) s ≡ some (fold_words step h a n s)
  unfolding drain_loop fold_words
  drain_loop_lem zero a n s enough fits at = absurd (omega arith)
  drain_loop_lem (suc fuel) a zero s enough fits at =
      let e : a + 0 ≡ a = omega arith in rw (e, ==_refl (a % 2 ^ 32)) refl
  drain_loop_lem (suc fuel) a (suc n) s enough fits at =
      let more : ((a % 2 ^ 32) == ((a + suc n) % 2 ^ 32)) ≡ false =
        ==_of_ne (a % 2 ^ 32) ((a + suc n) % 2 ^ 32) (omega arith) in
      let next : add32 (a % 2 ^ 32) 1 ≡ suc a % 2 ^ 32 = omega arith in
      let end : (a + suc n) % 2 ^ 32 ≡ (suc a + n) % 2 ^ 32 =
        ap (λ (t : ℕ). t % 2 ^ 32) (omega arith) in
      let index : bit_and (a % 2 ^ 32) (ring_len - 1) ≡ a % ring_len =
        omega (arith, bit_and_mask 12 (a % 2 ^ 32)) in
      let word : ring (bit_and (a % 2 ^ 32) (ring_len - 1)) ≡ h a =
        ap ring index ∙ at a (omega arith) (omega arith) in
      rw (more, next, end, word)
        (drain_loop_lem fuel (suc a) n (step (h a) s) (omega arith) (omega arith)
          (λ j lo hi. at j (omega arith) (omega arith)))

-- The cursor after a drain at which `n` words had been written.
pub record IsSynced (n : ℕ) (c : Cursor) : Type 0 where
  pub rd : c.rd ≡ n % 2 ^ 32
  pub total : c.total ≡ n % 2 ^ 32
  pub prev : c.prev ≡ n % ring_len

pub fresh-IsSynced : IsSynced 0 fresh
fresh-IsSynced = omega arith

-- `bd_dma_total` adds what was written since, modulo the ring.
dma_total_lem :
    (n more base : ℕ) (c : Cursor)
    → base + 2 ^ 14 ≤ 2 ^ 32
    → IsSynced n c
    → let c' = dma_total (write_addr base (n + more)) base c in
      (c'.total ≡ (n + more % ring_len) % 2 ^ 32)
      × (c'.prev ≡ (n + more) % ring_len)
      × (c'.rd ≡ n % 2 ^ 32)
      × (c'.discarded ≡ c.discarded)
unfolding dma_total
dma_total_lem n more base c room v =
    let masked = bit_and_mask 14 (sub32 (write_addr base (n + more)) base) in
    let cur = bit_and (sub32 (write_addr base (n + more)) base) (2 ^ 14 - 1) / 4 in
    let here : cur ≡ (n + more) % ring_len = omega (arith, masked) in
    let delta : bit_and (sub32 cur c.prev) (ring_len - 1) ≡ more % ring_len =
      omega (arith, here, v, bit_and_mask 12 (sub32 cur c.prev)) in
    (omega (arith, delta, v), here, v.rd, refl)

-- The guard does nothing to a cursor that lags by less than a ring.
overrun_guard_idle : (c : Cursor) → sub32 c.total c.rd ≤ ring_len → overrun_guard c ≡ c
unfolding overrun_guard
overrun_guard_idle c h = ground arith

-- The cursor that a drain leaves, at which `more` words had been written since the last.
abbrev drained : ℕ → ℕ → Cursor → Cursor
drained n more c = record {
  rd = (n + more % ring_len) % 2 ^ 32;
  total = (n + more % ring_len) % 2 ^ 32;
  prev = (n + more) % ring_len;
  discarded = c.discarded;
}

-- Before the loop.
abbrev drained_to : ℕ → ℕ → Cursor → Cursor
drained_to n more c = record {
  rd = n % 2 ^ 32;
  total = (n + more % ring_len) % 2 ^ 32;
  prev = (n + more) % ring_len;
  discarded = c.discarded;
}

module _ {ℓ} {S : Type ℓ} (step : ℕ → S → S) (base : ℕ) (room : base + 2 ^ 14 ≤ 2 ^ 32) where
  drain_from_any :
      (n more : ℕ) (ring : ℕ → ℕ) (c : Cursor) (s : S)
      → c.rd ≡ n % 2 ^ 32
      → c.total ≡ (n + more % ring_len) % 2 ^ 32
      → drain_from step ring c s
        ≡ some (
          fold_words step (λ j. ring (j % ring_len)) n (more % ring_len) s,
          record c { rd = c.total },
        )
  unfolding drain_from
  drain_from_any n more ring c s hr ht =
      let looped =
        drain_loop_lem step (λ j. ring (j % ring_len)) ring (suc ring_len) n (more % ring_len) s
          (omega arith) (omega arith) (λ j _ _. refl) in
      let run : drain_loop step ring (suc ring_len) c.rd c.total s
          ≡ some (fold_words step (λ j. ring (j % ring_len)) n (more % ring_len) s) =
        ap₂ (λ (x y : ℕ). drain_loop step ring (suc ring_len) x y s) hr ht ∙ looped in
      rw (run, drain_from) refl

  drain_ring_any :
      (n more : ℕ) (ring : ℕ → ℕ) (c : Cursor) (s : S)
      → IsSynced n c
      → drain_ring step ring (write_addr base (n + more)) base c s
        ≡ some (fold_words step (λ j. ring (j % ring_len)) n (more % ring_len) s, drained n more c)
  unfolding drain_ring
  drain_ring_any n more ring c s v =
      let c' = dma_total (write_addr base (n + more)) base c in
      let moved = dma_total_lem n more base c room v in
      let idle : overrun_guard c' ≡ c' = overrun_guard_idle c' (omega (arith, moved)) in
      ap (λ (t : Cursor). drain_from step ring t s) (idle ∙ ground (arith, moved))
      ∙ drain_from_any n more ring (drained_to n more c) s refl refl

  fold_words_ext :
      (h g : ℕ → ℕ) (a n : ℕ) (s : S)
      → ((j : ℕ) → a ≤ j → j < a + n → h j ≡ g j)
      → fold_words step h a n s ≡ fold_words step g a n s
  unfolding fold_words
  fold_words_ext h g a zero s same = refl
  fold_words_ext h g a (suc n) s same =
      let first : h a ≡ g a = same a (omega arith) (omega arith) in
      rw first (
        fold_words_ext h g (suc a) n (step (g a) s) (λ j lo hi. same j (omega arith) (omega arith)))

  -- If fewer words than the ring holds were written since the last drain, a drain returns, hands
  -- exactly those words on, each once and in the order in which the bus produced them, and leaves
  -- the cursor ready for the next drain; the counter of discarded words stays.
  pub drain_ring_lem :
      (n more : ℕ) (h : ℕ → ℕ) (c : Cursor) (s : S)
      → IsSynced n c
      → more < ring_len
      → (c' : Cursor) × (drain_ring step (filled h (n + more)) (write_addr base (n + more)) base c s
          ≡ some (fold_words step h n more s, c'))
        × IsSynced (n + more) c'
        × (c'.discarded ≡ c.discarded)
  drain_ring_lem n more h c s v few =
      let all : more % ring_len ≡ more = omega arith in
      (
        drained n more c,
        drain_ring_any n more (filled h (n + more)) c s v
            ∙ ap (λ (t : S). some (t, drained n more c))
                (ap (λ (t : ℕ). fold_words step (λ j. filled h (n + more) (j % ring_len)) n t s) all
                  ∙ fold_words_ext (λ j. filled h (n + more) (j % ring_len)) h n more s
                      (λ j lo hi. filled_at h (n + more) j hi (omega arith))),
        omega arith,
        refl,
      )

  -- However many words were written since the last drain: the overrun guard never acts. A drain
  -- hands on only the remainder of their number by the ring's length, and the counter of discarded
  -- words stays, so that whole laps of the ring are lost and not counted.
  pub drain_ring_uncounted :
      (n more : ℕ) (ring : ℕ → ℕ) (c : Cursor) (s : S)
      → IsSynced n c
      → (s' : S) × (c' : Cursor) × (drain_ring step ring (write_addr base (n + more)) base c s
          ≡ some (s', c'))
        × (s' ≡ fold_words step (λ j. ring (j % ring_len)) n (more % ring_len) s)
        × IsSynced (n + more % ring_len) c'
        × (c'.discarded ≡ c.discarded)
  drain_ring_uncounted n more ring c s v = (
    fold_words step (λ j. ring (j % ring_len)) n (more % ring_len) s,
    drained n more c,
    drain_ring_any n more ring c s v,
    refl,
    omega arith,
    refl,
  )
