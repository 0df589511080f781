-- ===== src/BootCapture/Tests.antt =====
-- Words, rings and drains on short traffic.
use msx_pulse.Shared.{ℕ, zero, suc, ◌+◌, ◌%◌, ◌≡◌, true, false, some, length, arith}
use msx_pulse.BootDetect
use msx_pulse.BootDetect.{BootDetect, fetch, mem_read, mem_write, io_read, io_write, feed_all}
use msx_pulse.BootCapture.{Cursor, Capture, fresh, ring_len, drain_ring, drain}
use msx_pulse.BootCapture.Decode.{Lines}
use msx_pulse.BootCapture.Ring.{
  filled, write_addr, fold_words, IsSynced, fresh-IsSynced, drain_ring_lem, drain_ring_uncounted,
}
use msx_pulse.BootCapture.Drain.{Traffic, shown, events, drain_lem}

-- A write of 0x5a to 0xc000, and a write of 0x82 to port 0xab.
abbrev ram_write : Lines
ram_write = record {
  addr = 0xc000;
  data_byte = 0x5a;
  rd = false;
  wr = true;
  mreq = true;
  iorq = false;
  m1 = false;
  above = 7;
}

abbrev port_write : Lines
port_write = record ram_write { addr = 0xab; data_byte = 0x82; mreq = false; iorq = true }

abbrev mem_words : ℕ → ℕ
mem_words zero = 0xe2f30000
mem_words _ = 0xe95ac000

abbrev count_word : ℕ → ℕ → ℕ
count_word raw n = suc n

drain_ring_example :
    (c' : Cursor) × (drain_ring count_word
        (filled mem_words (0 + 3))
        (write_addr 0x20000000 (0 + 3))
        0x20000000
        fresh
        0
      ≡ some (fold_words count_word mem_words 0 3 0, c'))
    × IsSynced (0 + 3) c'
    × (c'.discarded ≡ 0)
drain_ring_example =
    drain_ring_lem count_word 0x20000000 (omega arith) 0 3 mem_words fresh 0 fresh-IsSynced
      (omega arith)

-- 4099 words since the last drain, a lap and three words: three are handed on.
drain_ring_uncounted_example :
    (n' : ℕ) × (c' : Cursor) × (drain_ring count_word mem_words
        (write_addr 0x20000000 (0 + 4099))
        0x20000000
        fresh
        0
      ≡ some (n', c'))
    × (n' ≡ fold_words count_word (λ j. mem_words (j % ring_len)) 0 (4099 % ring_len) 0)
    × IsSynced (0 + 4099 % ring_len) c'
    × (c'.discarded ≡ 0)
drain_ring_uncounted_example =
    drain_ring_uncounted count_word 0x20000000 (omega arith) 0 4099 mem_words fresh 0 fresh-IsSynced

abbrev mem_traffic : Traffic
mem_traffic = record { words = mem_words; before = 0; since = 2; base = 0x20000000 }

abbrev io_traffic : Traffic
io_traffic = record { words = λ _. 0xf58200ab; before = 0; since = 1; base = 0x20008000 }

abbrev header_log : ℕ → ℕ
header_log zero = 0x414000
header_log _ = 0x424001

abbrev armed : Capture
armed = record {
  armed = true;
  mem = fresh;
  io = fresh;
  alog_rd = 0;
  late_drains = 0;
  max_gap_us = 0;
  last_drain_us = 0;
}

drain_example :
    let es = events mem_traffic io_traffic header_log 0 2 in
    (c' : Capture) × (drain (shown mem_traffic io_traffic header_log 2 100) armed BootDetect.reset
      ≡ some (feed_all BootDetect.reset es, length es, c'))
    × IsSynced (0 + 2) c'.mem
    × IsSynced (0 + 1) c'.io
    × (c'.alog_rd ≡ 2)
    × (c'.mem.discarded ≡ 0)
    × (c'.io.discarded ≡ 0)
drain_example =
    drain_lem mem_traffic io_traffic header_log 2 100 armed BootDetect.reset
      (record { room = omega arith; synced = fresh-IsSynced; few = omega arith })
      (record { room = omega arith; synced = fresh-IsSynced; few = omega arith }) (omega arith)
      (omega arith)
