-- ===== src/CartServe/Pipeline.antt =====
-- The set-up of PIO and DMA in src/firmware/cart_serve.c.
use msx_pulse.Shared.{ℕ, zero, suc, ◌+◌, ◌/◌, ◌^◌, true, false, ℤ, pos, some, List, [], ◌∷◌, ◌++◌}
use msx_pulse.Hardware.{
  HwCall, Transfer, rx_fifo, tx_fifo, rom_lut, read_addr_trig, sio, for_pins, gpio_init, gpio_put,
  gpio_set_dir, gpio_set_function, set_gpio_base, pio_gpio_init, add_program, cart_addr_read,
  cart_read, sm_init, sm_set_config, sm_set_enabled, sm_clear_fifos, sm_restart, sm_exec_jmp,
  sm_put, sm_set_pins, sm_set_pindirs, claim_channel, prioritise_dma, dma_abort, dma_configure,
}

abbrev pub gp_lvc_oen : ℕ
gp_lvc_oen = 35

abbrev pub gp_lvc_dir : ℕ
gp_lvc_dir = 34

abbrev pub gp_wait : ℕ
gp_wait = 30

-- `pio1` and `pio2`; both state machines are number 0.
abbrev pub addr_pio : ℕ
addr_pio = 1

abbrev pub data_pio : ℕ
data_pio = 2

-- The statics, with the address of `rom_lut`.
pub record Pipeline : Type 0 where
  pub addr_prog_offset : ℕ
  pub read_prog_offset : ℕ
  pub dma_addr_fwd_ch : ℤ
  pub dma_data_fetch_ch : ℤ
  pub lut_base : ℕ

-- The statics while `cart_serve_init` has not run: zero, as C leaves them.
abbrev pub untouched : ℕ → Pipeline
untouched lut_base = record {
  addr_prog_offset = 0;
  read_prog_offset = 0;
  dma_addr_fwd_ch = pos 0;
  dma_data_fetch_ch = pos 0;
  lut_base = lut_base;
}

abbrev pub fetch_transfer : Pipeline → Transfer
fetch_transfer p = record {
  channel = p.dma_data_fetch_ch;
  size_bits = 8;
  read_increment = false;
  write_increment = false;
  ring_bits = 0;
  dreq = tx_fifo data_pio 0;
  chain_to = some p.dma_data_fetch_ch;
  dst = tx_fifo data_pio 0;
  src = rom_lut;
  count = some 1;
  trigger = false;
}

abbrev pub forward_transfer : Pipeline → Transfer
forward_transfer p = record {
  channel = p.dma_addr_fwd_ch;
  size_bits = 32;
  read_increment = false;
  write_increment = false;
  ring_bits = 0;
  dreq = rx_fifo addr_pio 0;
  chain_to = some p.dma_addr_fwd_ch;
  dst = read_addr_trig p.dma_data_fetch_ch;
  src = rx_fifo addr_pio 0;
  count = some 0xffffffff;
  trigger = true;
}

unfoldable pub dma_chain_arm : Pipeline → List HwCall
dma_chain_arm p =
    dma_configure (fetch_transfer p) ∷ dma_configure (forward_transfer p) ∷ prioritise_dma ∷ []

unfoldable pub bus_buffers_enable : List HwCall
bus_buffers_enable =
    gpio_init gp_lvc_oen ∷ gpio_set_dir gp_lvc_oen true ∷ gpio_put gp_lvc_oen 0 ∷ []

abbrev idle_high : ℕ
idle_high = 2 ^ gp_wait + 2 ^ gp_lvc_dir

-- `pio_sm_set_pins_with_mask64` with both pins high.
abbrev idle_pins : HwCall
idle_pins = sm_set_pins data_pio 0 idle_high idle_high

-- The second part of `cart_serve_init`; `fwd` and `fetch` are the channels that the SDK claims, of
-- which it asserts that the first is lower.
unfoldable pub pipeline_init :
    (addr_offset read_offset : ℕ) (fwd fetch : ℤ) → Pipeline → Pipeline × List HwCall
unfolding dma_chain_arm
pipeline_init addr_offset read_offset fwd fetch old =
    let p : Pipeline = record {
      addr_prog_offset = addr_offset;
      read_prog_offset = read_offset;
      dma_addr_fwd_ch = fwd;
      dma_data_fetch_ch = fetch;
      lut_base = old.lut_base;
    } in
    (
      p,
      set_gpio_base addr_pio 0
          ∷ set_gpio_base data_pio 16
          ∷ add_program addr_pio cart_addr_read
          ∷ add_program data_pio cart_read
          ∷ sm_init addr_pio 0 addr_offset cart_addr_read
          ∷ sm_set_pindirs addr_pio 0 0 16 false
          ∷ sm_clear_fifos addr_pio 0
          ∷ sm_put addr_pio 0 (p.lut_base / 2 ^ 16)
          ∷ (for_pins (pio_gpio_init data_pio) 8 16
              ++ (pio_gpio_init data_pio gp_wait
                  ∷ pio_gpio_init data_pio gp_lvc_dir
                  ∷ sm_set_config data_pio 0 read_offset cart_read
                  ∷ sm_clear_fifos data_pio 0
                  ∷ sm_restart data_pio 0
                  ∷ sm_exec_jmp data_pio 0 read_offset
                  ∷ idle_pins
                  ∷ sm_set_pindirs data_pio 0 16 8 false
                  ∷ sm_set_pindirs data_pio 0 gp_wait 1 true
                  ∷ sm_set_pindirs data_pio 0 gp_lvc_dir 1 true
                  ∷ claim_channel
                  ∷ claim_channel
                  ∷ (dma_chain_arm p
                      ++ (gpio_init gp_lvc_oen
                          ∷ gpio_set_dir gp_lvc_oen true
                          ∷ gpio_put gp_lvc_oen 1
                          ∷ [])))),
    )

unfoldable pub arm : List HwCall
arm = sm_set_enabled data_pio 0 true ∷ sm_set_enabled addr_pio 0 true ∷ []

abbrev halt : Pipeline → List HwCall
halt p =
    sm_set_enabled addr_pio 0 false
    ∷ sm_set_enabled data_pio 0 false
    ∷ dma_abort p.dma_addr_fwd_ch
    ∷ dma_abort p.dma_data_fetch_ch
    ∷ []

-- A pin of the data bus back to an input of the processor.
abbrev release_pin : ℕ → List HwCall
release_pin pin = gpio_set_function pin sio ∷ gpio_set_dir pin false ∷ []

unfoldable pub release_pins : (n first : ℕ) → List HwCall
release_pins zero first = []
release_pins (suc n) first = release_pin first ++ release_pins n (first + 1)

unfoldable pub disable_drive : Pipeline → List HwCall
unfolding release_pins
disable_drive p =
    halt p
    ++ (gpio_set_function gp_lvc_dir sio
        ∷ gpio_set_dir gp_lvc_dir true
        ∷ gpio_put gp_lvc_dir 1
        ∷ (release_pins 8 16 ++ release_pin gp_wait))

unfoldable pub reset_pipeline : Pipeline → List HwCall
unfolding dma_chain_arm arm
reset_pipeline p =
    halt p
    ++ (sm_clear_fifos addr_pio 0
        ∷ sm_clear_fifos data_pio 0
        ∷ sm_restart addr_pio 0
        ∷ sm_restart data_pio 0
        ∷ sm_exec_jmp addr_pio 0 p.addr_prog_offset
        ∷ sm_exec_jmp data_pio 0 p.read_prog_offset
        ∷ sm_put addr_pio 0 (p.lut_base / 2 ^ 16)
        ∷ (dma_chain_arm p ++ (idle_pins ∷ sm_set_pindirs data_pio 0 16 8 false ∷ arm)))
