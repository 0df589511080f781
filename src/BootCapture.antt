-- ===== src/BootCapture.antt =====
-- src/firmware/boot_capture.c: captured bus words, decoded and drained from the DMA rings into the
-- detector. A ring is a function from its index to the word stored there; the DMA channel that
-- fills it is the environment.
pub mod Arming
pub mod Decode
pub mod Ring
pub mod Words
pub mod Drain
mod Tests
use msx_pulse.Shared.{
  ℕ, zero, suc, ◌+◌, ◌-◌, ◌/◌, ◌%◌, ◌^◌, bit_and, has_bit, Bool, true, false, not, ◌||◌, ◌&&◌, ◌==◌,
  ◌!=◌, ltb, max, if◌then◌else◌, Option, none, some, List, [], ◌∷◌, add32, sub32,
}
use msx_pulse.BootDetect.{
  BootDetect, BusEvent, EventKind, fetch, mem_read, mem_write, io_read, io_write, feed,
}

-- The positions of RAW_BIT_WR, RAW_BIT_MREQ, RAW_BIT_IORQ and RAW_BIT_M1 (ipc.h); all active low.
abbrev pub raw_wr : ℕ
raw_wr = 25

abbrev pub raw_mreq : ℕ
raw_mreq = 26

abbrev pub raw_iorq : ℕ
raw_iorq = 27

abbrev pub raw_m1 : ℕ
raw_m1 = 28

abbrev is_read : EventKind → Bool
is_read mem_read = true
is_read _ = false

unfoldable pub decode_mem : ℕ → Option BusEvent
decode_mem raw =
    let mreq = not (has_bit raw raw_mreq) in
    let m1 = not (has_bit raw raw_m1) in
    let wr = not (has_bit raw raw_wr) in
    let kind = if m1 then fetch else if wr then mem_write else mem_read in
    if not mreq
    then none
    else some (record {
      kind = kind;
      addr = bit_and raw 0xffff;
      data_byte = bit_and (raw / 2 ^ 16) 0xff;
      data_valid = not (is_read kind);
    })

unfoldable pub decode_io : ℕ → Option BusEvent
decode_io raw =
    let iorq = not (has_bit raw raw_iorq) in
    let wr = not (has_bit raw raw_wr) in
    if not iorq
    then none
    else some (record {
      kind = if wr then io_write else io_read;
      addr = bit_and raw 0xffff;
      data_byte = bit_and (raw / 2 ^ 16) 0xff;
      data_valid = wr;
    })

abbrev pub ring_len : ℕ
ring_len = 2 ^ 12

-- The variables that go with one ring: `rd_cursor`, `waddr_total`, `waddr_prev`, `discarded`.
pub record Cursor : Type 0 where
  pub rd : ℕ
  pub total : ℕ
  pub prev : ℕ
  pub discarded : ℕ

-- The four assignments of `boot_capture_reset` to one ring's variables.
abbrev pub fresh : Cursor
fresh = record { rd = 0; total = 0; prev = 0; discarded = 0 }

-- `bd_dma_total`: `waddr` is what the channel's write-address register holds.
unfoldable pub dma_total : ℕ → ℕ → Cursor → Cursor
dma_total waddr base c =
    let cur_offset = bit_and (sub32 waddr base) (2 ^ 14 - 1) / 2 ^ 2 in
    let delta = bit_and (sub32 cur_offset c.prev) (ring_len - 1) in
    record c { total = add32 c.total delta; prev = cur_offset }

-- The overrun guard of `drain_ring`.
unfoldable pub overrun_guard : Cursor → Cursor
overrun_guard c =
    if ltb ring_len (sub32 c.total c.rd)
    then record c {
      discarded = add32 c.discarded (sub32 c.total c.rd - ring_len);
      rd = sub32 c.total ring_len;
    }
    else c

-- The loop of `drain_ring` over a ring; `step` is what is done with one word. `none` would mean
-- that the fuel ran out.
module _ {ℓ} {S : Type ℓ} (step : ℕ → S → S) (ring : ℕ → ℕ) where
  pub drain_loop : ℕ → ℕ → ℕ → S → Option S
  drain_loop zero rd total s = none
  drain_loop (suc fuel) rd total s =
      let rest = drain_loop fuel (add32 rd 1) total (step (ring (bit_and rd (ring_len - 1))) s) in
      if rd == total then some s else rest

  -- The loop and what follows it.
  pub drain_from : Cursor → S → Option (S × Cursor)
  drain_from c s = elim (drain_loop (suc ring_len) c.rd c.total s) [
    | none ↦ none
    | some s' ↦ some (s', record c { rd = c.total })
  ]

  unfoldable pub drain_ring : ℕ → ℕ → Cursor → S → Option (S × Cursor)
  drain_ring waddr base c s = drain_from (overrun_guard (dma_total waddr base c)) s

-- What `drain_ring` does with a word: the decoder, and `n`, the count of events fed.
unfoldable pub feed_word : (ℕ → Option BusEvent) → ℕ → BootDetect × ℕ → BootDetect × ℕ
feed_word decode raw (s, n) = elim (decode raw) [ none ↦ (s, n) | some e ↦ (feed s e, add32 n 1) ]

-- The static variables of boot_capture.c; `armed` is whether `boot_capture_init` has claimed the
-- channels.
pub record Capture : Type 0 where
  pub armed : Bool
  pub mem : Cursor
  pub io : Cursor
  pub alog_rd : ℕ
  pub late_drains : ℕ
  pub max_gap_us : ℕ
  pub last_drain_us : ℕ

-- The last lines of `boot_capture_init` and of `boot_capture_reset`.
unfoldable pub init : Capture
init = record {
  armed = true;
  mem = fresh;
  io = fresh;
  alog_rd = 0;
  late_drains = 0;
  max_gap_us = 0;
  last_drain_us = 0;
}

unfoldable pub reset : Capture → Capture
unfolding init
reset c = if not c.armed then c else init

abbrev pub drain_budget_us : ℕ
drain_budget_us = 2000

-- The cadence watchdog at the head of `boot_capture_drain`; the clock is a uint64_t.
unfoldable pub watch_cadence : ℕ → Capture → Capture
watch_cadence now_us c =
    let gap = (now_us + 2 ^ 64 - c.last_drain_us) % 2 ^ 64 % 2 ^ 32 in
    let started = c.last_drain_us != 0 in
    record c {
      max_gap_us = if started && ltb c.max_gap_us gap then gap else c.max_gap_us;
      late_drains =
          if started && ltb drain_budget_us gap then add32 c.late_drains 1 else c.late_drains;
      last_drain_us = now_us;
    }

-- One word of the access log (`alog_peek`): a read of the header whose data is valid.
unfoldable pub feed_alog : ℕ → BootDetect × ℕ → BootDetect × ℕ
feed_alog raw (s, n) =
    let a = bit_and raw 0xffff in
    let e : BusEvent = record {
      kind = mem_read;
      addr = a;
      data_byte = bit_and (raw / 2 ^ 16) 0xff;
      data_valid = true;
    } in
    if a == 0x4000 || a == 0x4001 then (feed s e, add32 n 1) else (s, n)

-- `for (; bd_alog_rd < cap; bd_alog_rd++)`: the words of the log from the cursor on, which number
-- `cap - bd_alog_rd` (a 16-bit cursor below `cap` does not wrap).
unfoldable pub drain_alog : ℕ → ℕ → (ℕ → ℕ) → BootDetect × ℕ → BootDetect × ℕ
drain_alog zero idx log s = s
drain_alog (suc rounds) idx log s = drain_alog rounds (suc idx) log (feed_alog (log idx) s)

-- What `boot_capture_drain` reads of the hardware.
pub record Inputs : Type 0 where
  pub now_us : ℕ
  pub mem_base : ℕ
  pub mem_waddr : ℕ
  pub mem_ring : ℕ → ℕ
  pub io_base : ℕ
  pub io_waddr : ℕ
  pub io_ring : ℕ → ℕ
  pub alog_captured : ℕ
  pub alog : ℕ → ℕ

unfoldable pub drain : Inputs → Capture → BootDetect → Option (BootDetect × ℕ × Capture)
drain i c s =
    let c' = watch_cadence i.now_us c in
    elim (drain_ring (feed_word decode_mem) i.mem_ring i.mem_waddr i.mem_base c'.mem (s, 0)) [
      | none ↦ none
      | some (after_mem, mem) ↦
          elim (drain_ring (feed_word decode_io) i.io_ring i.io_waddr i.io_base c'.io after_mem) [
            | none ↦ none
            | some (after_io, io) ↦
                let (s', n) =
                  drain_alog (i.alog_captured - c'.alog_rd) c'.alog_rd i.alog after_io in
                some (
                  s',
                  n,
                  record c' { mem = mem; io = io; alog_rd = max c'.alog_rd i.alog_captured },
                )
          ]
    ]

-- `boot_capture_health`
unfoldable pub health : Capture → ℕ × ℕ × ℕ
health c = (add32 c.mem.discarded c.io.discarded, c.late_drains, c.max_gap_us)
