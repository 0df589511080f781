-- ===== src/BootCapture/Drain.antt =====
-- A whole drain: the words of both rings and of the access log, in the detector.
use msx_pulse.Shared.{
  ℕ, ◌+◌, ◌-◌, ◌^◌, ◌≤◌, ◌<◌, ◌≡◌, refl, sym, ap, ap₂, length-append, ◌∙◌, max, Option, some, List,
  ◌++◌, length, arith,
}
use msx_pulse.BootDetect.{BootDetect, BusEvent, feed_all}
use msx_pulse.BootCapture.{
  Cursor, Capture, Inputs, ring_len, decode_mem, decode_io, feed_word, drain_ring, drain_alog,
  watch_cadence, drain,
}
use msx_pulse.BootCapture.Ring.{filled, write_addr, IsSynced, drain_ring_lem}
use msx_pulse.BootCapture.Words.{
  decoded, fold_words-feed_word, decode_alog, drain_alog-fold_words, feed_all_append,
  length-decoded,
}

-- One ring's traffic: the words so far, how many there were at the last drain, and how many came
-- since, with the address of the ring.
pub record Traffic : Type 0 where
  pub words : ℕ → ℕ
  pub before : ℕ
  pub since : ℕ
  pub base : ℕ

pub record IsDrainable (t : Traffic) (c : Cursor) : Type 0 where
  pub room : t.base + 2 ^ 14 ≤ 2 ^ 32
  pub synced : IsSynced t.before c
  pub few : t.since < ring_len

-- What the hardware shows at the time of a drain.
abbrev pub shown : Traffic → Traffic → (ℕ → ℕ) → ℕ → ℕ → Inputs
shown mem io log captured now_us = record {
  now_us = now_us;
  mem_base = mem.base;
  mem_waddr = write_addr mem.base (mem.before + mem.since);
  mem_ring = filled mem.words (mem.before + mem.since);
  io_base = io.base;
  io_waddr = write_addr io.base (io.before + io.since);
  io_ring = filled io.words (io.before + io.since);
  alog_captured = captured;
  alog = log;
}

-- The events of a drain, in the order in which it feeds them.
unfoldable pub events : Traffic → Traffic → (ℕ → ℕ) → ℕ → ℕ → List BusEvent
events mem io log from captured =
    decoded decode_mem mem.words mem.before mem.since
    ++ (decoded decode_io io.words io.before io.since
        ++ decoded decode_alog log from (captured - from))

-- `drain` where both rings return.
drain_parts :
    (i : Inputs) (c : Capture) (s : BootDetect) (after_mem after_io : BootDetect × ℕ)
    (mem io : Cursor)
    → let c' = watch_cadence i.now_us c in
      drain_ring (feed_word decode_mem) i.mem_ring i.mem_waddr i.mem_base c'.mem (s, 0)
        ≡ some (after_mem, mem)
      → drain_ring (feed_word decode_io) i.io_ring i.io_waddr i.io_base c'.io after_mem
        ≡ some (after_io, io)
      → let log = drain_alog (i.alog_captured - c'.alog_rd) c'.alog_rd i.alog after_io in
        drain i c s
        ≡ some (
          log.0,
          log.1,
          record c' { mem = mem; io = io; alog_rd = max c'.alog_rd i.alog_captured },
        )
unfolding drain
drain_parts i c s after_mem after_io mem io e e' = rw (e, drain) (rw e' refl)

-- Each drain of the two rings, in events.
ring_events :
    (decode : ℕ → Option BusEvent) (t : Traffic) (c : Cursor) (s : BootDetect) (n : ℕ)
    → IsDrainable t c
    → n + t.since < 2 ^ 32
    → let es = decoded decode t.words t.before t.since in
      let total = t.before + t.since in
      (c' : Cursor) × (drain_ring
          (feed_word decode)
          (filled t.words total)
          (write_addr t.base total)
          t.base
          c
          (s, n)
        ≡ some ((feed_all s es, n + length es), c'))
      × IsSynced total c'
      × (c'.discarded ≡ c.discarded)
ring_events decode t c s n v small =
    let (c', run, synced, kept) =
      drain_ring_lem (feed_word decode) t.base v.room t.before t.since t.words c (s, n) v.synced
        v.few in
    (
      c',
      run
          ∙ ap (λ (x : BootDetect × ℕ). some (x, c'))
              (fold_words-feed_word decode t.words t.before t.since s n small),
      synced,
      kept,
    )

-- The three runs of events as one.
joined :
    (s : BootDetect) (xs ys zs : List BusEvent) (c : Capture) (r : BootDetect × ℕ)
    → r ≡ (feed_all (feed_all (feed_all s xs) ys) zs, 0 + length xs + length ys + length zs)
    → let es = xs ++ (ys ++ zs) in
      ◌≡◌ {A = Option (BootDetect × ℕ × Capture)}
        (some (r.0, r.1, c))
        (some (feed_all s es, length es, c))
joined s xs ys zs c r e =
    ap₂ (λ (x : BootDetect) (n : ℕ). some (x, n, c))
      (ap (λ (x : BootDetect × ℕ). x.0) e
        ∙ sym (feed_all_append (feed_all s xs) ys zs)
        ∙ sym (feed_all_append s xs (ys ++ zs)))
      (ap (λ (x : BootDetect × ℕ). x.1) e
        ∙ omega (arith, length-append xs (ys ++ zs), length-append ys zs))

-- A drain that comes before either ring has been lapped returns: it feeds the detector the events
-- that the new words of the memory ring decode to, then those of the I/O ring, then the header
-- reads of the access log, each once and in order; it returns their number, and leaves every
-- cursor where the next drain goes on, with no word counted as discarded.
pub drain_lem :
    (mem io : Traffic) (log : ℕ → ℕ) (captured now_us : ℕ) (c : Capture) (s : BootDetect)
    → IsDrainable mem c.mem
    → IsDrainable io c.io
    → c.alog_rd ≤ captured
    → captured < 2 ^ 16
    → let es = events mem io log c.alog_rd captured in
      (c' : Capture) × (drain (shown mem io log captured now_us) c s
        ≡ some (feed_all s es, length es, c'))
      × IsSynced (mem.before + mem.since) c'.mem
      × IsSynced (io.before + io.since) c'.io
      × (c'.alog_rd ≡ captured)
      × (c'.mem.discarded ≡ c.mem.discarded)
      × (c'.io.discarded ≡ c.io.discarded)
unfolding events watch_cadence
drain_lem mem io log captured now_us c s vm vi ahead few =
    let from_mem = decoded decode_mem mem.words mem.before mem.since in
    let from_io = decoded decode_io io.words io.before io.since in
    let from_log = decoded decode_alog log c.alog_rd (captured - c.alog_rd) in
    let s_mem = feed_all s from_mem in
    let s_io = feed_all s_mem from_io in
    let n_mem = 0 + length from_mem in
    let n_io = n_mem + length from_io in
    let few_mem = length-decoded decode_mem mem.words mem.before mem.since in
    let few_io = length-decoded decode_io io.words io.before io.since in
    let (c_mem, run_mem, synced_mem, kept_mem) =
      ring_events decode_mem mem c.mem s 0 vm (omega arith) in
    let (c_io, run_io, synced_io, kept_io) =
      ring_events decode_io io c.io s_mem n_mem vi (omega arith) in
    let logged =
      drain_alog-fold_words (captured - c.alog_rd) c.alog_rd log (s_io, n_io)
      ∙ fold_words-feed_word decode_alog log c.alog_rd (captured - c.alog_rd) s_io n_io
          (omega arith) in
    let c' = record (watch_cadence now_us c) {
      mem = c_mem;
      io = c_io;
      alog_rd = max c.alog_rd captured;
    } in
    (
      c',
      drain_parts (shown mem io log captured now_us) c s (s_mem, n_mem) (s_io, n_io) c_mem c_io
            run_mem run_io
          ∙ joined s from_mem from_io from_log c' _ logged,
      synced_mem,
      synced_io,
      omega arith,
      kept_mem,
      kept_io,
    )
