-- ===== src/UsbSerial/Ring.antt =====
-- The two rings of src/firmware/ipc.h, of `size` lines each, and what usb_serial.c does with one
-- under its lock.
use msx_pulse.Shared.{
  ℕ, zero, suc, ◌+◌, ◌-◌, ◌%◌, ◌==◌, ◌!=◌, if◌then◌else◌, Option, none, some, List, [], ◌∷◌,
}

abbrev pub out_ring_lines : ℕ
out_ring_lines = 32

abbrev pub out_line_len : ℕ
out_line_len = 80

abbrev pub cmd_ring_lines : ℕ
cmd_ring_lines = 8

abbrev pub cmd_line_len : ℕ
cmd_line_len = 64

abbrev pub Line : Type 0
Line = List ℕ

-- `usb_out_ring_t` and `cmd_ring_t`, less the lock.
pub record Ring : Type 0 where
  pub lines : ℕ → Line
  pub write_idx : ℕ
  pub read_idx : ℕ

-- The C string at the start of some bytes.
unfoldable pub c_string : List ℕ → Line
c_string [] = []
c_string (c ∷ cs) = if c == 0 then [] else c ∷ c_string cs

-- `strncpy` of a string to a buffer with room for `n` characters, and the NUL put after it.
unfoldable pub clip : ℕ → Line → Line
clip zero cs = []
clip (suc n) [] = []
clip (suc n) (c ∷ cs) = c ∷ clip n cs

abbrev pub next : ℕ → ℕ → ℕ
next size i = (i + 1) % size

-- A line is stored unless the ring is full.
unfoldable pub push : ℕ → Line → Ring → Ring
push size line r =
    if next size r.write_idx != r.read_idx
    then record r {
      lines = λ i. if i == r.write_idx then line else r.lines i;
      write_idx = next size r.write_idx;
    }
    else r

-- The oldest line is taken out, if there is one.
unfoldable pub pop : ℕ → Ring → Option (Line × Ring)
pop size r =
    if r.read_idx != r.write_idx
    then some (r.lines r.read_idx, record r { read_idx = next size r.read_idx })
    else none

unfoldable pub write_line : Line → Ring → Ring
unfolding push clip
write_line line ring = push out_ring_lines (clip (out_line_len - 1) line) ring

-- `usb_serial_get_cmd` for a buffer of `buflen` bytes, of which it wants one at least.
unfoldable pub get_cmd : ℕ → Ring → Option (Line × Ring)
unfolding pop clip c_string
get_cmd buflen ring = elim (pop cmd_ring_lines ring) [
  | none ↦ none
  | some (bytes, ring') ↦ some (clip (buflen - 1) (c_string bytes), ring')
]
