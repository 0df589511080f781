-- ===== src/BootCapture/Words.antt =====
-- The events in a run of captured words, and in the access log.
use msx_pulse.Shared.{
  ℕ, zero, suc, ◌+◌, ◌^◌, ◌≤◌, ◌<◌, ◌≡◌, refl, ap, ◌∙◌, true, Option, none, some, List, [], ◌∷◌,
  ◌++◌, ◌/◌, ◌||◌, ◌==◌, if◌then◌else◌, bit_and, length, add32, arith,
}
use msx_pulse.BootDetect.{BootDetect, BusEvent, mem_read, feed, feed_all}
use msx_pulse.BootCapture.{feed_word, feed_alog, drain_alog}
use msx_pulse.BootCapture.Ring.{fold_words}

-- The events that the words `h a`, …, `h (a + n - 1)` decode to.
unfoldable pub decoded : (ℕ → Option BusEvent) → (ℕ → ℕ) → ℕ → ℕ → List BusEvent
decoded decode h a zero = []
decoded decode h a (suc n) = elim (decode (h a)) [
  | none ↦ decoded decode h (suc a) n
  | some e ↦ e ∷ decoded decode h (suc a) n
]

-- Handing words to the detector feeds it those events, and counts them.
pub fold_words-feed_word :
    (decode : ℕ → Option BusEvent) (h : ℕ → ℕ) (a n : ℕ) (s : BootDetect) (count : ℕ)
    → count + n < 2 ^ 32
    → fold_words (feed_word decode) h a n (s, count)
      ≡ (feed_all s (decoded decode h a n), count + length (decoded decode h a n))
unfolding fold_words decoded feed_word feed_all
fold_words-feed_word decode h a zero s count small = ground arith
fold_words-feed_word decode h a (suc n) s count small =
    by_word (decode (h a)) refl (fold_words-feed_word decode h (suc a) n)
  where
    by_word :
        (o : Option BusEvent)
        → decode (h a) ≡ o
        → ((s : BootDetect) (count : ℕ)
            → count + n < 2 ^ 32
            → fold_words (feed_word decode) h (suc a) n (s, count) ≡ (
              feed_all s (decoded decode h (suc a) n),
              count + length (decoded decode h (suc a) n),
            ))
        → fold_words (feed_word decode) h a (suc n) (s, count)
          ≡ (feed_all s (decoded decode h a (suc n)), count + length (decoded decode h a (suc n)))
    by_word none e ih = rw (e, feed_word, decoded) (ih s count (omega arith))
    by_word (some ev) e ih =
        let counted : add32 count 1 ≡ suc count = omega arith in
        rw (e, feed_word, decoded)
          (rw counted (
            ih (feed s ev) (suc count) (omega arith)
            ∙ ap (λ (t : ℕ). (feed_all (feed s ev) (decoded decode h (suc a) n), t)) (omega arith)))

-- A header read in a word of the access log.
pub decode_alog : ℕ → Option BusEvent
decode_alog raw =
    let a = bit_and raw 0xffff in
    if a == 0x4000 || a == 0x4001
    then some (record {
      kind = mem_read;
      addr = a;
      data_byte = bit_and (raw / 2 ^ 16) 0xff;
      data_valid = true;
    })
    else none

pub drain_alog-fold_words :
    (n a : ℕ) (log : ℕ → ℕ) (s : BootDetect × ℕ)
    → drain_alog n a log s ≡ fold_words (feed_word decode_alog) log a n s
unfolding drain_alog fold_words
drain_alog-fold_words zero a log s = refl
drain_alog-fold_words (suc n) a log s =
    drain_alog-fold_words n (suc a) log (feed_alog (log a) s)
    ∙ ap (fold_words (feed_word decode_alog) log (suc a) n) (same_word (log a) s)
  where
    same_word : (raw : ℕ) (s : BootDetect × ℕ) → feed_alog raw s ≡ feed_word decode_alog raw s
    same_word raw s = unfold feed_alog feed_word decode_alog in ground arith

pub feed_all_append :
    (s : BootDetect) (xs ys : List BusEvent) → feed_all s (xs ++ ys) ≡ feed_all (feed_all s xs) ys
unfolding feed_all
feed_all_append s [] ys = refl
feed_all_append s (x ∷ xs) ys = feed_all_append (feed s x) xs ys

pub length-decoded :
    (decode : ℕ → Option BusEvent) (h : ℕ → ℕ) (a n : ℕ) → length (decoded decode h a n) ≤ n
unfolding decoded
length-decoded decode h a zero = omega arith
length-decoded decode h a (suc n) = ground (arith, length-decoded decode h (suc a) n)
