-- ===== src/Alog.antt =====
-- src/firmware/alog.h and alog.c: the log of the accesses to the cartridge slot, filled by DMA.
pub mod Print
use msx_pulse.Shared.{
  ℕ, ◌-◌, ◌*◌, ◌/◌, ◌%◌, ◌^◌, Bool, true, false, ltb, leb, if◌then◌else◌, ℤ, negsuc, is_neg, Option,
  none, some, List, [], ◌∷◌, ◌++◌, sub32,
}
use msx_pulse.Hardware.{
  HwCall, Transfer, rx_fifo, alog_raw, add_program, cart_addr_log, sm_init, sm_set_pindirs,
  sm_clear_fifos, claim_channel, sm_set_enabled, sm_restart, sm_exec_jmp, dma_abort, dma_configure,
}

abbrev pub alog_slot_count : ℕ
alog_slot_count = 50

abbrev pub alog_per_slot : ℕ
alog_per_slot = 5

abbrev pub alog_total : ℕ
alog_total = alog_slot_count * alog_per_slot

-- The statics, less the log itself.
pub record Alog : Type 0 where
  pub pio_offset : ℕ
  pub dma_ch : ℤ

-- Before `alog_init`.
abbrev pub unclaimed : Alog
unclaimed = record { pio_offset = 0; dma_ch = negsuc 0 }

abbrev pub log_transfer : Alog → Transfer
log_transfer a = record {
  channel = a.dma_ch;
  size_bits = 32;
  read_increment = false;
  write_increment = true;
  ring_bits = 0;
  dreq = rx_fifo 0 0;
  chain_to = none;
  dst = alog_raw;
  src = rx_fifo 0 0;
  count = some alog_total;
  trigger = true;
}

unfoldable pub arm_dma : Alog → List HwCall
arm_dma a = dma_configure (log_transfer a) ∷ []

-- `offset` and `ch` are what the SDK returns for the program and the channel.
unfoldable pub alog_init : (offset : ℕ) (ch : ℤ) → Alog × List HwCall
unfolding arm_dma
alog_init offset ch =
    let a : Alog = record { pio_offset = offset; dma_ch = ch } in
    (
      a,
      add_program 0 cart_addr_log
          ∷ sm_init 0 0 offset cart_addr_log
          ∷ sm_set_pindirs 0 0 0 32 false
          ∷ sm_clear_fifos 0 0
          ∷ claim_channel
          ∷ (arm_dma a ++ (sm_set_enabled 0 0 true ∷ [])),
    )

unfoldable pub alog_reset : Alog → List HwCall
unfolding arm_dma
alog_reset a =
    sm_set_enabled 0 0 false
    ∷ dma_abort a.dma_ch
    ∷ sm_clear_fifos 0 0
    ∷ sm_restart 0 0
    ∷ sm_exec_jmp 0 0 a.pio_offset
    ∷ (arm_dma a ++ (sm_set_enabled 0 0 true ∷ []))

-- `write_addr` is the register of the channel, `base` the address of the log.
unfoldable pub captured : (write_addr base : ℕ) → Alog → ℕ
captured write_addr base a =
    let n = sub32 write_addr base / 4 in
    if is_neg a.dma_ch then 0 else (if ltb alog_total n then alog_total else n) % 2 ^ 16

unfoldable pub peek : (ℕ → ℕ) → ℕ → ℕ
peek log idx = if leb alog_total idx then 0 else log idx
