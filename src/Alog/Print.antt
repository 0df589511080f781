-- ===== src/Alog/Print.antt =====
-- The printers of src/firmware/alog.c, as the lines they write.
use msx_pulse.Shared.{
  ℕ, zero, suc, ◌+◌, ◌-◌, ◌*◌, ◌/◌, ◌%◌, ◌^◌, Bool, leb, if◌then◌else◌, List, [], ◌∷◌, ◌++◌, Text,
  codes, decimal, hex, pad_left, has_bit, ℤ, pos, negsuc,
}
use msx_pulse.Alog.{Alog, alog_total, alog_slot_count, alog_per_slot}

abbrev end_line : Text
end_line = codes "\r\n"

-- `%lu` of `(n >> k) & 1u`
abbrev bit_digit : ℕ → ℕ → Text
bit_digit n k = decimal (n / 2 ^ k % 2)

-- `n` is what `alog_captured` returns.
unfoldable pub print_status : ℕ → List Text
print_status n =
    (codes "ALOG: "
      ++ (decimal n
          ++ (codes "/"
              ++ (decimal alog_total
                  ++ (codes " events captured ("
                      ++ (decimal alog_slot_count
                          ++ (codes " slots x " ++ (decimal alog_per_slot ++ codes ")\r\n"))))))))
    ∷ []

unfoldable pub entry_line : (ℕ → ℕ) → (n_now idx : ℕ) → Text
entry_line log n_now idx =
    let raw = log idx in
    let index = codes "  [" ++ pad_left 3 (decimal idx) in
    if leb n_now idx
    then index ++ codes "] -\r\n"
    else index
      ++ (codes "] $"
          ++ (hex 4 (raw % 2 ^ 16)
              ++ (codes "  /RD="
                  ++ (bit_digit raw 24
                      ++ (codes " /WR="
                          ++ (bit_digit raw 25
                              ++ (codes " /M1="
                                  ++ (bit_digit raw 28
                                      ++ (codes "  raw=$" ++ (hex 8 raw ++ end_line))))))))))

-- The loop over the entries of a slot, with `n` rounds left.
unfoldable pub slot_lines : (ℕ → ℕ) → (n_now n idx : ℕ) → List Text
unfolding entry_line
slot_lines log n_now zero idx = []
slot_lines log n_now (suc n) idx =
    entry_line log n_now idx ∷ slot_lines log n_now n ((idx + 1) % 2 ^ 16)

unfoldable pub print_slot : (ℕ → ℕ) → (n_now slot : ℕ) → List Text
unfolding slot_lines
print_slot log n_now slot =
    if leb alog_slot_count slot
    then (codes "ALOG: slot out of range (0-" ++ (decimal (alog_slot_count - 1) ++ codes ")\r\n"))
      ∷ []
    else (codes "ALOG slot "
        ++ (decimal slot ++ (codes " (count=" ++ (decimal n_now ++ codes "):\r\n"))))
      ∷ slot_lines log n_now alog_per_slot (slot * alog_per_slot % 2 ^ 16)

-- The registers that `alog_print_debug` reads.
pub record Registers : Type 0 where
  pub sm_pc : ℕ
  pub sm_instr : ℕ
  pub fdebug : ℕ
  pub flevel : ℕ
  pub ctrl : ℕ
  pub dma_wa : ℕ
  pub dma_count : ℕ
  pub dma_busy : Bool
  pub gpio_in : ℕ

-- `%ld` of a difference, and `%d` of an int.
abbrev signed_difference : ℕ → ℕ → Text
signed_difference a b = if leb b a then decimal (a - b) else 45 ∷ decimal (b - a)

abbrev signed : ℤ → Text
signed (pos n) = decimal n
signed (negsuc n) = 45 ∷ decimal (suc n)

abbrev flag : Bool → Text
flag b = if b then codes "1" else codes "0"

unfoldable pub print_debug : Registers → (n : ℕ) → Alog → List Text
print_debug r n a =
    codes "ALOG DEBUG:\r\n"
    ∷ (codes "  SM en="
        ++ (flag (has_bit r.ctrl 0)
            ++ (codes " pc="
                ++ (decimal r.sm_pc
                    ++ (codes " rel="
                        ++ (signed_difference r.sm_pc a.pio_offset
                            ++ (codes " instr=$"
                                ++ (hex 4 r.sm_instr
                                    ++ (codes " off=" ++ (decimal a.pio_offset ++ end_line))))))))))
    ∷ (codes "  fdebug=$"
        ++ (hex 8 r.fdebug
            ++ (codes " rxstall="
                ++ (flag (has_bit r.fdebug 28)
                    ++ (codes " txstall="
                        ++ (flag (has_bit r.fdebug 24)
                            ++ (codes " flevel=$" ++ (hex 8 r.flevel ++ end_line))))))))
    ∷ (codes "  DMA ch"
        ++ (signed a.dma_ch
            ++ (codes " busy="
                ++ (flag r.dma_busy
                    ++ (codes " wa=$"
                        ++ (hex 8 r.dma_wa
                            ++ (codes " cnt="
                                ++ (decimal r.dma_count
                                    ++ (codes " cap="
                                        ++ (decimal n
                                            ++ (codes "/"
                                                ++ (decimal alog_total ++ end_line))))))))))))
    ∷ (codes "  gpio=$"
        ++ (hex 8 r.gpio_in
            ++ (codes " /SLTSL="
                ++ (bit_digit r.gpio_in 29
                    ++ (codes " /RD="
                        ++ (bit_digit r.gpio_in 24
                            ++ (codes " /M1=" ++ (bit_digit r.gpio_in 28 ++ end_line))))))))
    ∷ []
