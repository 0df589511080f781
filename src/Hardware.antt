-- ===== src/Hardware.antt =====
-- The calls of the board's SDK that src/firmware makes, as values: a function that sets hardware up
-- is the list of its calls, in order. What the SDK returns is an argument of that function.
pub mod Trace
use msx_pulse.Shared.{ℕ, zero, suc, Bool, ℤ, Option, List, [], ◌∷◌}

-- Where a transfer reads or writes: a memory of the program, a FIFO of a state machine, or the
-- register that sets a channel's read address and starts it.
pub data Place : Type 0 where
  alog_raw rom_lut bd_mem_ring bd_io_ring tx_ring : Place
  rx_fifo tx_fifo : (pio sm : ℕ) → Place
  read_addr_trig : ℤ → Place

-- `dma_channel_config` with the arguments of `dma_channel_configure`. The request comes from a FIFO;
-- `ring_bits` is 0 without a ring; `count` is `none` for `dma_encode_endless_transfer_count`.
pub record Transfer : Type 0 where
  pub channel : ℤ
  pub size_bits : ℕ
  pub read_increment : Bool
  pub write_increment : Bool
  pub ring_bits : ℕ
  pub dreq : Place
  pub chain_to : Option ℤ
  pub dst : Place
  pub src : Place
  pub count : Option ℕ
  pub trigger : Bool

-- `gpio_function_t`, as far as it is used.
pub data PinFunction : Type 0 where
  sio pwm i2c : PinFunction

pub data Program : Type 0 where
  cart_addr_log bd_mem_capture bd_io_capture txn_read_capture cart_addr_read cart_read : Program

pub data HwCall : Type 0 where
  gpio_init gpio_pull_up gpio_disable_pulls : (pin : ℕ) → HwCall
  gpio_put : (pin level : ℕ) → HwCall
  gpio_set_dir : (pin : ℕ) (out : Bool) → HwCall
  gpio_set_function : (pin : ℕ) → PinFunction → HwCall
  sleep_us sleep_ms : ℕ → HwCall
  set_gpio_base pio_gpio_init : (pio arg : ℕ) → HwCall
  add_program : (pio : ℕ) → Program → HwCall
  sm_set_enabled : (pio sm : ℕ) → Bool → HwCall
  sm_clear_fifos sm_restart : (pio sm : ℕ) → HwCall
  sm_init : (pio sm offset : ℕ) → Program → HwCall
  sm_set_config : (pio sm offset : ℕ) → Program → HwCall
  sm_exec_jmp sm_put : (pio sm arg : ℕ) → HwCall
  sm_set_pins : (pio sm values mask : ℕ) → HwCall
  sm_set_pindirs : (pio sm first count : ℕ) (out : Bool) → HwCall
  set_fdebug : (pio value : ℕ) → HwCall
  claim_channel prioritise_dma : HwCall
  dma_abort : ℤ → HwCall
  dma_configure : Transfer → HwCall

-- `for (int pin = first; ...)`: a call for each of `n` pins.
unfoldable pub for_pins : (ℕ → HwCall) → (n first : ℕ) → List HwCall
for_pins call zero first = []
for_pins call (suc n) first = call first ∷ for_pins call n (suc first)
