-- ===== src/TxnCapture/Arming.antt =====
-- The calls of src/firmware/txn_capture.c that set its state machine and channel up: number 0 of
-- `pio1`.
use msx_pulse.Shared.{ℕ, true, false, ℤ, negsuc, is_neg, if◌then◌else◌, none, List, [], ◌∷◌}
use msx_pulse.Hardware.{
  HwCall, Transfer, rx_fifo, tx_ring, add_program, txn_read_capture, sm_init, sm_set_pindirs,
  sm_clear_fifos, sm_set_enabled, sm_restart, sm_exec_jmp, claim_channel, dma_abort, dma_configure,
}

pub record Arming : Type 0 where
  pub off : ℕ
  pub dma : ℤ

-- Before `txn_capture_init`.
abbrev pub unclaimed : Arming
unclaimed = record { off = 0; dma = negsuc 0 }

abbrev pub ring_transfer : Arming → Transfer
ring_transfer a = record {
  channel = a.dma;
  size_bits = 32;
  read_increment = false;
  write_increment = true;
  ring_bits = 14;
  dreq = rx_fifo 1 0;
  chain_to = none;
  dst = tx_ring;
  src = rx_fifo 1 0;
  count = none;
  trigger = true;
}

-- `txn_capture_init`, with what the SDK returns.
unfoldable pub init_calls : (off : ℕ) (dma : ℤ) → Arming × List HwCall
init_calls off dma =
    let a : Arming = record { off = off; dma = dma } in
    (
      a,
      add_program 1 txn_read_capture
          ∷ claim_channel
          ∷ dma_configure (ring_transfer a)
          ∷ sm_init 1 0 off txn_read_capture
          ∷ sm_set_pindirs 1 0 0 32 false
          ∷ sm_clear_fifos 1 0
          ∷ sm_set_enabled 1 0 true
          ∷ [],
    )

-- `txn_capture_reset`
unfoldable pub reset_calls : Arming → List HwCall
reset_calls a =
    if is_neg a.dma
    then []
    else sm_set_enabled 1 0 false
      ∷ dma_abort a.dma
      ∷ sm_clear_fifos 1 0
      ∷ sm_restart 1 0
      ∷ sm_exec_jmp 1 0 a.off
      ∷ dma_configure (ring_transfer a)
      ∷ sm_set_enabled 1 0 true
      ∷ []

-- `txn_capture_stop`
unfoldable pub stop_calls : Arming → List HwCall
stop_calls a = if is_neg a.dma then [] else sm_set_enabled 1 0 false ∷ dma_abort a.dma ∷ []
