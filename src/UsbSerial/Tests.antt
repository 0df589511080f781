-- ===== src/UsbSerial/Tests.antt =====
-- The rings and the task on short input.
use msx_pulse.Shared.{ℕ, ◌-◌, ◌≡◌, refl, true, ◌⊎◌, none, some, List, [], ◌∷◌, ◌++◌, map, arith}
use msx_pulse.UsbSerial.Ring.{Line, Ring, clip, push, pop, cmd_line_len}
use msx_pulse.UsbSerial.Fifo.{IsRing, queue, offer, push_lem, pop_lem}
use msx_pulse.UsbSerial.Task.{drain_out, receive}
use msx_pulse.UsbSerial.Task.Output.{sent_of, drain_out_lem}
use msx_pulse.UsbSerial.Command.{
  dump_hex, tolower, str_tolower, skip, trim_end, same_text, after_prefix, digits, parse_dump,
  parse_words, parse_cmd,
}
use msx_pulse.UsbSerial.Command.Spelling.{parse_cmd_lem}
use msx_pulse.UsbSerial.Task.Input.{split_lines, offer_all, receive_lem}

-- A ring about to wrap, with one line in it.
abbrev wrapping : ℕ → Ring
wrapping last = record { lines = λ _. 111 ∷ 107 ∷ []; write_idx = 0; read_idx = last }

push_example :
    IsRing 8 (push 8 (65 ∷ []) (wrapping 7))
    × (queue 8 (push 8 (65 ∷ []) (wrapping 7)) ≡ offer 8 (65 ∷ []) (queue 8 (wrapping 7)))
push_example =
    push_lem 8 (65 ∷ []) (wrapping 7) (record { writes = omega arith; reads = omega arith })

pop_example :
    ((pop 8 (wrapping 7) ≡ none) × (queue 8 (wrapping 7) ≡ []))
    ⊎ ((line : Line) × (r' : Ring) × (pop 8 (wrapping 7) ≡ some (line, r'))
        × (queue 8 (wrapping 7) ≡ line ∷ queue 8 r')
        × IsRing 8 r')
pop_example = pop_lem 8 (wrapping 7) (record { writes = omega arith; reads = omega arith })

drain_out_example :
    (ring' : Ring) × (drain_out 32 (λ _. true) 0 (wrapping 31)
      ≡ some (sent_of (λ _. true) 0 (queue 32 (wrapping 31)), ring'))
    × IsRing 32 ring'
    × (queue 32 ring' ≡ [])
drain_out_example =
    drain_out_lem (λ _. true) (wrapping 31) (record { writes = omega arith; reads = omega arith })

-- "b\r\n?"
abbrev typed : List ℕ
typed = 98 ∷ 13 ∷ 10 ∷ 63 ∷ []

receive_example :
    let (ended, last) = split_lines [] typed in
    let (accum, ring') = receive typed ([], wrapping 7) in
    (accum ≡ clip (cmd_line_len - 1) last)
    × IsRing 8 ring'
    × (queue 8 ring' ≡ offer_all ended (queue 8 (wrapping 7)))
receive_example =
    receive_lem typed (wrapping 7) (record { writes = omega arith; reads = omega arith })

-- "Dump $4F"
abbrev dump_line : Line
dump_line = 68 ∷ 117 ∷ 109 ∷ 112 ∷ 32 ∷ 36 ∷ 52 ∷ 70 ∷ []

parse_cmd_example :
    (parse_cmd (map tolower dump_line) ≡ parse_cmd dump_line)
    × (parse_cmd (dump_line ++ (13 ∷ [])) ≡ parse_cmd dump_line)
parse_cmd_example = parse_cmd_lem dump_line 13 (omega arith) refl

dump_line_verdict :
    parse_cmd (str_tolower 63 dump_line) ≡ record { type = dump_hex; arg_addr = 0x4f }
unfolding parse_cmd parse_words str_tolower skip trim_end same_text after_prefix parse_dump digits
dump_line_verdict = refl
