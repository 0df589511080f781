-- ===== src/CartServe.antt =====
-- src/firmware/rom_lut.h, rom_lut.c and the first part of cart_serve_init in cart_serve.c: the ROM
-- image and the table that the bus is answered from. A memory is a function from its index.
pub mod Image
pub mod Pipeline
mod Tests
use msx_pulse.Shared.{
  ℕ, zero, suc, ◌+◌, ◌-◌, Bool, ◌&&◌, ◌==◌, ltb, leb, if◌then◌else◌, Option, none, some,
}

abbrev pub Memory : Type 0
Memory = ℕ → ℕ

abbrev pub sram_size : ℕ
sram_size = 16384

abbrev pub reverse_permute : ℕ → ℕ
reverse_permute a = a

abbrev pub permute_data : ℕ → ℕ
permute_data b = b

abbrev pub store : ℕ → ℕ → Memory → Memory
store i b mem j = if j == i then b else mem j

-- The loop of `rom_lut_build`, at address `logical` with `n` rounds left.
pub build_loop : ℕ → ℕ → Memory → ℕ → Memory → Memory
build_loop zero logical sram sram_len lut = lut
build_loop (suc n) logical sram sram_len lut =
    let src_idx = logical - 0x4000 in
    let byte = if ltb src_idx sram_len then sram src_idx else 0xff in
    build_loop n (suc logical) sram sram_len
      (store (reverse_permute logical) (permute_data byte) lut)

-- Addresses 0x4000 to 0x7FFF.
unfoldable pub rom_lut_build : Memory → ℕ → Memory
rom_lut_build sram sram_len = build_loop sram_size 0x4000 sram sram_len (λ _. 0xff)

-- What `cart_serve_init` leaves in `rom_sram`; `none` is a null image.
unfoldable pub load_rom : Option Memory → ℕ → Memory → Memory
load_rom rom_image rom_size rom_sram i =
    let copy_len = if ltb rom_size sram_size then rom_size else sram_size in
    if leb copy_len i
    then (if ltb i sram_size then 0xff else rom_sram i)
    else elim rom_image [ none ↦ rom_sram i | some rom ↦ rom i ]

-- And in `rom_lut`.
unfoldable pub serve_init : Option Memory → ℕ → Memory → Memory
serve_init rom_image rom_size rom_sram =
    rom_lut_build (load_rom rom_image rom_size rom_sram) sram_size
