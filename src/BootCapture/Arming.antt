-- ===== src/BootCapture/Arming.antt =====
-- The calls of src/firmware/boot_capture.c that set its two state machines and channels up.
use msx_pulse.Shared.{ℕ, true, false, ℤ, negsuc, is_neg, if◌then◌else◌, none, List, [], ◌∷◌, ◌++◌}
use msx_pulse.Hardware.{
  HwCall, Transfer, Place, Program, rx_fifo, bd_mem_ring, bd_io_ring, add_program, bd_mem_capture,
  bd_io_capture, sm_init, sm_set_pindirs, sm_clear_fifos, sm_set_enabled, sm_restart, sm_exec_jmp,
  claim_channel, dma_abort, dma_configure,
}

-- The state machine of the memory cycles is number 1 of `pio0`, that of the I/O cycles number 2.
pub record Arming : Type 0 where
  pub mem_off : ℕ
  pub io_off : ℕ
  pub mem_dma : ℤ
  pub io_dma : ℤ

-- Before `boot_capture_init`.
abbrev pub unclaimed : Arming
unclaimed = record { mem_off = 0; io_off = 0; mem_dma = negsuc 0; io_dma = negsuc 0 }

abbrev pub ring_transfer : ℤ → Place → (sm : ℕ) → Transfer
ring_transfer ch ring sm = record {
  channel = ch;
  size_bits = 32;
  read_increment = false;
  write_increment = true;
  ring_bits = 14;
  dreq = rx_fifo 0 sm;
  chain_to = none;
  dst = ring;
  src = rx_fifo 0 sm;
  count = none;
  trigger = true;
}

abbrev arm_rings : Arming → List HwCall
arm_rings a =
    dma_configure (ring_transfer a.mem_dma bd_mem_ring 1)
    ∷ dma_configure (ring_transfer a.io_dma bd_io_ring 2)
    ∷ []

abbrev start_sm : (sm off : ℕ) → Program → List HwCall
start_sm sm off program =
    sm_init 0 sm off program
    ∷ sm_set_pindirs 0 sm 0 32 false
    ∷ sm_clear_fifos 0 sm
    ∷ sm_set_enabled 0 sm true
    ∷ []

-- `boot_capture_init`, with what the SDK returns.
unfoldable pub init_calls : (mem_off io_off : ℕ) (mem_dma io_dma : ℤ) → Arming × List HwCall
init_calls mem_off io_off mem_dma io_dma =
    let a : Arming = record {
      mem_off = mem_off;
      io_off = io_off;
      mem_dma = mem_dma;
      io_dma = io_dma;
    } in
    (
      a,
      add_program 0 bd_mem_capture
          ∷ add_program 0 bd_io_capture
          ∷ claim_channel
          ∷ claim_channel
          ∷ (arm_rings a ++ (start_sm 1 mem_off bd_mem_capture ++ start_sm 2 io_off bd_io_capture)),
    )

abbrev halt : Arming → List HwCall
halt a =
    sm_set_enabled 0 1 false
    ∷ sm_set_enabled 0 2 false
    ∷ dma_abort a.mem_dma
    ∷ dma_abort a.io_dma
    ∷ []

-- `boot_capture_reset`
unfoldable pub reset_calls : Arming → List HwCall
reset_calls a =
    if is_neg a.mem_dma
    then []
    else halt a
      ++ (sm_clear_fifos 0 1
          ∷ sm_clear_fifos 0 2
          ∷ sm_restart 0 1
          ∷ sm_restart 0 2
          ∷ sm_exec_jmp 0 1 a.mem_off
          ∷ sm_exec_jmp 0 2 a.io_off
          ∷ (arm_rings a ++ (sm_set_enabled 0 1 true ∷ sm_set_enabled 0 2 true ∷ [])))

-- `boot_capture_stop`
unfoldable pub stop_calls : Arming → List HwCall
stop_calls a = halt a
