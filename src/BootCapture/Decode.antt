-- ===== src/BootCapture/Decode.antt =====
-- The decoders read back the bus lines from which a capture word is made.
use msx_pulse.Shared.{
  ℕ, ◌+◌, ◌*◌, ◌/◌, ◌%◌, ◌^◌, ◌≤◌, ◌<◌, ◌≡◌, ◌∙◌, bit_and, bit_and_mask, has_bit, has_bit-bit,
  bit_shifted, Bool, true, false, not, ◌==◌, if◌then◌else◌, none, some, arith,
}
use msx_pulse.BootDetect.{fetch, mem_read, mem_write, io_read, io_write}
use msx_pulse.BootCapture.{decode_mem, decode_io}

-- The bus at one moment: a control line is `true` when it is asserted, that is low. `above` is
-- what the pins from GP29 on add.
pub record Lines : Type 0 where
  pub addr : ℕ
  pub data_byte : ℕ
  pub rd : Bool
  pub wr : Bool
  pub mreq : Bool
  pub iorq : Bool
  pub m1 : Bool
  pub above : ℕ

abbrev pub IsLines : Lines → Type 0
IsLines l = (l.addr < 2 ^ 16) × (l.data_byte < 2 ^ 8)

abbrev pub level : Bool → ℕ
level true = 0
level false = 1

-- The word that a capture program pushes: GP0 to GP31 at once.
pub word : Lines → ℕ
word l =
    l.addr
    + 2 ^ 16 * l.data_byte
    + 2 ^ 24 * level l.rd
    + 2 ^ 25 * level l.wr
    + 2 ^ 26 * level l.mreq
    + 2 ^ 27 * level l.iorq
    + 2 ^ 28 * level l.m1
    + 2 ^ 29 * l.above

level-le : (b : Bool) → level b ≤ 1
level-le true = omega arith
level-le false = omega arith

ruleset levels = (arith, level-le)

low_fields :
    (l : Lines) → IsLines l → (word l % 2 ^ 16 ≡ l.addr) × (word l / 2 ^ 16 % 2 ^ 8 ≡ l.data_byte)
unfolding word
low_fields l fits = omega arith

level-eq_one : (b : Bool) (n : ℕ) → n ≡ level b → (n == 1) ≡ not b
level-eq_one b n e = ground arith

control_wr : (l : Lines) → IsLines l → (word l / 2 ^ 25 % 2 == 1) ≡ not l.wr
unfolding word
control_wr l fits = level-eq_one l.wr _ (omega levels)

control_mreq : (l : Lines) → IsLines l → (word l / 2 ^ 26 % 2 == 1) ≡ not l.mreq
unfolding word
control_mreq l fits = level-eq_one l.mreq _ (omega levels)

control_iorq : (l : Lines) → IsLines l → (word l / 2 ^ 27 % 2 == 1) ≡ not l.iorq
unfolding word
control_iorq l fits = level-eq_one l.iorq _ (omega levels)

control_m1 : (l : Lines) → IsLines l → (word l / 2 ^ 28 % 2 == 1) ≡ not l.m1
unfolding word
control_m1 l fits = level-eq_one l.m1 _ (omega levels)

record Fields (l : Lines) (raw : ℕ) : Type 0 where
  addr : bit_and raw 0xffff ≡ l.addr
  data_byte : bit_and (raw / 2 ^ 16) 0xff ≡ l.data_byte
  wr : has_bit raw 25 ≡ not l.wr
  mreq : has_bit raw 26 ≡ not l.mreq
  iorq : has_bit raw 27 ≡ not l.iorq
  m1 : has_bit raw 28 ≡ not l.m1

word-Fields : (l : Lines) → IsLines l → Fields l (word l)
word-Fields l fits = record {
  addr = bit_and_mask 16 (word l) ∙ (low_fields l fits).0;
  data_byte = bit_and_mask 8 (word l / 2 ^ 16) ∙ (low_fields l fits).1;
  wr = has_bit-bit 25 (word l) ∙ bit_shifted 25 (word l) ∙ control_wr l fits;
  mreq = has_bit-bit 26 (word l) ∙ bit_shifted 26 (word l) ∙ control_mreq l fits;
  iorq = has_bit-bit 27 (word l) ∙ bit_shifted 27 (word l) ∙ control_iorq l fits;
  m1 = has_bit-bit 28 (word l) ∙ bit_shifted 28 (word l) ∙ control_m1 l fits;
}

-- A word made from bus lines decodes, in the memory ring, to nothing unless /MREQ is asserted;
-- otherwise to an event with the same address and data, an opcode fetch if /M1 is asserted, else a
-- write if /WR is, else a read, and its data is trusted exactly if it is no read.
pub decode_mem_lem :
    (l : Lines)
    → IsLines l
    → decode_mem (word l) ≡ (
        if l.mreq
        then some (record {
          kind = if l.m1 then fetch else if l.wr then mem_write else mem_read;
          addr = l.addr;
          data_byte = l.data_byte;
          data_valid = if l.m1 then true else l.wr;
        })
        else none)
unfolding decode_mem
decode_mem_lem l fits = ground (arith, word-Fields l fits)

-- In the I/O ring it decodes to nothing unless /IORQ is asserted; otherwise to a write with
-- trusted data if /WR is asserted, else to a read whose data is not trusted.
pub decode_io_lem :
    (l : Lines)
    → IsLines l
    → decode_io (word l) ≡ (
        if l.iorq
        then some (record {
          kind = if l.wr then io_write else io_read;
          addr = l.addr;
          data_byte = l.data_byte;
          data_valid = l.wr;
        })
        else none)
unfolding decode_io
decode_io_lem l fits = ground (arith, word-Fields l fits)
