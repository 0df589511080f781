-- ===== src/TxnCapture.antt =====
-- src/firmware/txn_capture.c: the ring of driven reads, drained into the analyser. It is kept by
-- the arithmetic of the rings of BootCapture, with names of its own.
pub mod Arming
pub mod Drain
use msx_pulse.Shared.{
  ℕ, ◌+◌, ◌/◌, ◌^◌, bit_and, Bool, true, not, if◌then◌else◌, Option, none, some, add32,
}
use msx_pulse.BusIntegrity.{BusIntegrity, feed}
use msx_pulse.BootCapture
use msx_pulse.BootCapture.{Cursor, fresh, overrun_guard, drain_from}

-- `armed` is `tx_dma >= 0`; the cursor holds `tx_rd`, `tx_waddr_total`, `tx_waddr_prev`, `tx_disc`.
pub record Capture : Type 0 where
  pub armed : Bool
  pub cursor : Cursor

unfoldable pub init : Capture
init = record { armed = true; cursor = fresh }

unfoldable pub reset : Capture → Capture
unfolding init
reset c = if not c.armed then c else init

-- `tx_dma_total`
pub dma_total : ℕ → ℕ → Cursor → Cursor
dma_total waddr base c = BootCapture.dma_total waddr base c

-- The body of the loop, with `n`.
unfoldable pub feed_word : ℕ → BusIntegrity × ℕ → BusIntegrity × ℕ
feed_word raw (bi, n) = (feed bi (bit_and raw 0xffff) (bit_and (raw / 2 ^ 16) 0xff), add32 n 1)

unfoldable pub drain :
    (ring : ℕ → ℕ) (waddr base : ℕ) → Capture → BusIntegrity → Option (BusIntegrity × ℕ × Capture)
drain ring waddr base c bi =
    let ran = drain_from feed_word ring (overrun_guard (dma_total waddr base c.cursor)) (bi, 0) in
    if not c.armed
    then some (bi, 0, c)
    else elim ran [ none ↦ none | some (s, cursor) ↦ some (s.0, s.1, record c { cursor = cursor }) ]
