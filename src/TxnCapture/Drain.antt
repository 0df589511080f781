-- ===== src/TxnCapture/Drain.antt =====
-- A drain feeds the analyser every read of the ring.
use msx_pulse.Shared.{
  ℕ, zero, suc, ◌+◌, ◌/◌, ◌^◌, ◌≤◌, ◌<◌, ◌≡◌, ap, ◌∙◌, bit_and, bit_and_mask, true, some, List, [],
  ◌∷◌, All, add32, arith,
}
use msx_pulse.BusIntegrity.{BusIntegrity, feed}
use msx_pulse.BusIntegrity.Fields.{Read, IsRead, feed_all}
use msx_pulse.BootCapture.{Cursor, ring_len, drain_ring}
use msx_pulse.BootCapture.Ring.{filled, write_addr, fold_words, IsSynced, drain_ring_lem}
use msx_pulse.TxnCapture.{Capture, dma_total, feed_word, drain}

-- The reads in the words `h a`, …, `h (a + n - 1)`.
pub reads : (ℕ → ℕ) → ℕ → ℕ → List Read
reads h a zero = []
reads h a (suc n) =
    record { addr = bit_and (h a) 0xffff; data_byte = bit_and (h a / 2 ^ 16) 0xff }
    ∷ reads h (suc a) n

-- Each fits the bus, whatever the word.
pub reads-IsRead : (h : ℕ → ℕ) (a n : ℕ) → All IsRead (reads h a n)
unfolding reads
reads-IsRead h a zero = tt
reads-IsRead h a (suc n) = (
  (omega (arith, bit_and_mask 16 (h a)), omega (arith, bit_and_mask 8 (h a / 2 ^ 16))),
  reads-IsRead h (suc a) n,
)

fold_words-feed_word :
    (h : ℕ → ℕ) (a n : ℕ) (bi : BusIntegrity) (count : ℕ)
    → count + n < 2 ^ 32
    → fold_words feed_word h a n (bi, count) ≡ (feed_all bi (reads h a n), count + n)
unfolding fold_words feed_word reads feed_all
fold_words-feed_word h a zero bi count small = ground arith
fold_words-feed_word h a (suc n) bi count small =
    let counted : add32 count 1 ≡ suc count = omega arith in
    rw counted (
      fold_words-feed_word h (suc a) n
        (feed bi (bit_and (h a) 0xffff) (bit_and (h a / 2 ^ 16) 0xff)) (suc count) (omega arith)
      ∙ ap
          (λ (t : ℕ). (
            feed_all (feed bi (bit_and (h a) 0xffff) (bit_and (h a / 2 ^ 16) 0xff))
                (reads h (suc a) n),
            t,
          ))
          (omega arith))

drain_armed :
    (ring : ℕ → ℕ) (waddr base : ℕ) (c : Capture) (bi : BusIntegrity) (s : BusIntegrity × ℕ)
    (cursor : Cursor)
    → c.armed ≡ true
    → drain_ring feed_word ring waddr base c.cursor (bi, 0) ≡ some (s, cursor)
    → drain ring waddr base c bi ≡ some (s.0, s.1, record c { cursor = cursor })
unfolding drain dma_total drain_ring
drain_armed ring waddr base c bi s cursor armed e = ground arith

-- If fewer reads than the ring holds came since the last drain, a drain of an armed capture
-- returns: it feeds the analyser exactly those reads, each once and in order, returns their
-- number, and leaves the cursor ready for the next drain.
pub drain-reads :
    (base n more : ℕ) (h : ℕ → ℕ) (c : Capture) (bi : BusIntegrity)
    → base + 2 ^ 14 ≤ 2 ^ 32
    → c.armed ≡ true
    → IsSynced n c.cursor
    → more < ring_len
    → (c' : Capture) × (drain (filled h (n + more)) (write_addr base (n + more)) base c bi
        ≡ some (feed_all bi (reads h n more), more, c'))
      × IsSynced (n + more) c'.cursor
      × (c'.armed ≡ true)
drain-reads base n more h c bi room armed v few =
    let (c_ring, run, synced, _) =
      drain_ring_lem feed_word base room n more h c.cursor (bi, 0) v few in
    (
      record c { cursor = c_ring },
      drain_armed (filled h (n + more)) (write_addr base (n + more)) base c bi
            (fold_words feed_word h n more (bi, 0)) c_ring armed run
          ∙ ap (λ (r : BusIntegrity × ℕ). some (r.0, r.1, record c { cursor = c_ring }))
              (fold_words-feed_word h n more bi 0 (omega arith)
                ∙ ap (λ (t : ℕ). (feed_all bi (reads h n more), t)) (omega arith)),
      synced,
      armed,
    )
