-- ===== src/CartServe/Image.antt =====
-- What the MSX reads.
use msx_pulse.Shared.{
  ℕ, zero, suc, ◌+◌, ◌-◌, ◌≡◌, refl, ◌∙◌, ◌&&◌, ◌==◌, ltb, leb, if◌then◌else◌, some, arith,
  !=-cases, inl, inr,
}
use msx_pulse.CartServe.{Memory, build_loop, rom_lut_build, load_rom, serve_init}

build_loop_lem :
    (n logical : ℕ) (sram : Memory) (sram_len : ℕ) (lut : Memory) (a : ℕ)
    → build_loop n logical sram sram_len lut a ≡ (
        if leb logical a && ltb a (logical + n)
        then (if ltb (a - 0x4000) sram_len then sram (a - 0x4000) else 0xff)
        else lut a)
unfolding build_loop
build_loop_lem zero logical sram sram_len lut a = ground arith
build_loop_lem (suc n) logical sram sram_len lut a =
    build_loop_lem n (suc logical) sram sram_len _ a
    ∙ first_round (if ltb (logical - 0x4000) sram_len then sram (logical - 0x4000) else 0xff) refl
  where
    first_round :
        (byte : ℕ)
        → (if ltb (logical - 0x4000) sram_len then sram (logical - 0x4000) else 0xff) ≡ byte
        → (if leb (suc logical) a && ltb a (suc logical + n)
            then (if ltb (a - 0x4000) sram_len then sram (a - 0x4000) else 0xff)
            else (if a == logical then byte else lut a))
          ≡ (if leb logical a && ltb a (logical + suc n)
              then (if ltb (a - 0x4000) sram_len then sram (a - 0x4000) else 0xff)
              else lut a)
    first_round byte e = elim (!=-cases a logical) [
      | inl (here, _) ↦ rw here (ground (arith, e))
      | inr (apart, _) ↦ ground arith
    ]

-- After `cart_serve_init` with an image, a read of an address in 0x4000 to 0x7FFF is answered with
-- the image's byte for it, or with 0xFF where the image is shorter; every other entry of the table
-- is 0xFF.
pub serve_init_lem :
    (rom : Memory) (rom_size : ℕ) (rom_sram : Memory) (a : ℕ)
    → serve_init (some rom) rom_size rom_sram a ≡ (
        if leb 0x4000 a && ltb a 0x8000 && ltb (a - 0x4000) rom_size
        then rom (a - 0x4000)
        else 0xff)
unfolding serve_init rom_lut_build load_rom
serve_init_lem rom rom_size rom_sram a =
    ground (
      arith,
      build_loop_lem 16384 0x4000 (load_rom (some rom) rom_size rom_sram) 16384 (λ _. 0xff) a,
    )
