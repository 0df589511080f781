-- ===== src/Report.antt =====
-- `appendf` of src/firmware/boot_diag.c and boot_detect.c, which print to a buffer piece by piece.
pub mod Appended
pub mod Causes
pub mod Lines
pub mod Round
pub mod Phases
mod Tests
use msx_pulse.Shared.{
  ℕ, zero, suc, ◌+◌, ◌-◌, Bool, ltb, leb, if◌then◌else◌, has_bit, ◌++◌, [], Text, take, length,
}

-- A buffer of `buflen` bytes: its text up to the NUL, and the offset that the next piece goes to.
pub record Buffer : Type 0 where
  pub text : Text
  pub off : ℕ

-- The buffer before anything is printed.
pub empty : Buffer
empty = record { text = []; off = 0 }

-- `vsnprintf` writes at `off` what the rest of the buffer has room for, and returns the length of
-- the whole piece.
unfoldable pub appendf : ℕ → Text → Buffer → Buffer
appendf buflen piece b =
    let w = length piece in
    if leb buflen b.off then b else record {
      text = take b.off b.text ++ take (buflen - b.off - 1) piece;
      off = if leb buflen (b.off + w) then buflen - 1 else b.off + w;
    }

abbrev pub append_if : Bool → ℕ → Text → Buffer → Buffer
append_if test buflen piece b = if test then appendf buflen piece b else b

-- `for (int i = 0; i < nbits; i++) if (mask & (1u << i))`: a piece for each bit that is set, with `n`
-- rounds left.
unfoldable pub append_mask : ℕ → (ℕ → Text) → (n i mask : ℕ) → Buffer → Buffer
append_mask buflen piece zero i mask b = b
append_mask buflen piece (suc n) i mask b =
    append_mask buflen piece n (suc i) mask (append_if (has_bit mask i) buflen (piece i) b)

-- `for (int i = 0; i < n; i++)`: a piece for each.
unfoldable pub append_each : ℕ → (ℕ → Text) → (n i : ℕ) → Buffer → Buffer
append_each buflen piece zero i b = b
append_each buflen piece (suc n) i b =
    append_each buflen piece n (suc i) (appendf buflen (piece i) b)
