-- ===== src/Console/Dump.antt =====
-- What DUMP reads of the ROM image.
use msx_pulse.Shared.{
  ℕ, zero, suc, ◌+◌, ◌*◌, ◌<◌, ◌≤◌, ◌≡◌, refl, ap, ◌++◌, Text, codes, hex, arith, min, ltb,
  if◌then◌else◌,
}
use msx_pulse.Console.Probe.{row_bytes, dump_rows, dump_offset, cmd_dump_hex}

abbrev SameBelow : (bound : ℕ) → (ℕ → ℕ) → (ℕ → ℕ) → Type 0
SameBelow bound sram other = (i : ℕ) → i < bound → sram i ≡ other i

row_bytes-SameBelow :
    (sram other : ℕ → ℕ) (bound n at : ℕ)
    → SameBelow bound sram other
    → at + n ≤ bound
    → row_bytes sram n at ≡ row_bytes other n at
unfolding row_bytes
row_bytes-SameBelow sram other bound zero at same inside = refl
row_bytes-SameBelow sram other bound (suc n) at same inside = rw (same at (omega arith)) (
    ap (λ (t : Text). (codes " " ++ hex 2 (other at)) ++ t)
      (row_bytes-SameBelow sram other bound n (suc at) same (omega arith)))

dump_rows-SameBelow :
    (sram other : ℕ → ℕ) (bound n base : ℕ)
    → SameBelow bound sram other
    → base + 16 * n ≤ bound
    → dump_rows sram n base ≡ dump_rows other n base
unfolding dump_rows
dump_rows-SameBelow sram other bound zero base same inside = refl
dump_rows-SameBelow sram other bound (suc n) base same inside = cc (
  row_bytes-SameBelow sram other bound 16 base same (omega arith),
  dump_rows-SameBelow sram other bound n (base + 16) same (omega arith),
)

-- For every argument DUMP reads only the 16384 bytes of the ROM image: two images that agree there
-- are printed alike. The dump begins at the argument, moved up by 0x4000 if it is below that, and at
-- 0x7F00 at the latest.
pub dump_lem :
    (sram other : ℕ → ℕ) (arg_addr : ℕ)
    → ((i : ℕ) → i < 16384 → sram i ≡ other i)
    → (cmd_dump_hex sram arg_addr ≡ cmd_dump_hex other arg_addr)
      × (0x4000 + dump_offset arg_addr
          ≡ min 0x7f00 (if ltb arg_addr 0x4000 then arg_addr + 0x4000 else arg_addr))
unfolding cmd_dump_hex
dump_lem sram other arg_addr same =
    let inside : dump_offset arg_addr + 16 * 16 ≤ 16384 = ground arith in
    (dump_rows-SameBelow sram other 16384 16 (dump_offset arg_addr) same inside, ground arith)
