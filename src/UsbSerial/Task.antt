-- ===== src/UsbSerial/Task.antt =====
-- `usb_serial_task`: the banner, the lines out and the characters in. What the USB stack answers
-- is an argument: whether it is connected, and the characters it has read.
pub mod Input
pub mod Output
use msx_pulse.Shared.{
  ℕ, zero, suc, ◌+◌, ◌-◌, Bool, true, false, not, ◌&&◌, ◌||◌, ◌==◌, ◌!=◌, ltb, if◌then◌else◌,
  Option, none, some, List, [], ◌∷◌, ◌++◌, length,
}
use msx_pulse.UsbSerial.Ring.{
  Line, Ring, push, pop, next, out_ring_lines, cmd_ring_lines, cmd_line_len,
}

-- The statics of the function: `was_connected`, and `accum` with its length.
pub record Task : Type 0 where
  pub was_connected : Bool
  pub accum : Line

-- The loop that sends lines; `up i` is whether the i-th line finds a connection. `none` would mean
-- that the fuel ran out.
unfoldable pub drain_out : ℕ → (ℕ → Bool) → ℕ → Ring → Option (List Line × Ring)
unfolding pop
drain_out zero up i ring = none
drain_out (suc fuel) up i ring =
    let oldest = ring.lines ring.read_idx in
    let rest =
      drain_out fuel up (suc i) (record ring { read_idx = next out_ring_lines ring.read_idx }) in
    if ring.read_idx == ring.write_idx then some ([], ring) else elim rest [
      | none ↦ none
      | some (sent, ring') ↦ some (if up i then oldest ∷ sent else sent, ring')
    ]

unfoldable pub receive_char : ℕ → Line × Ring → Line × Ring
unfolding push
receive_char c (accum, cmd) =
    if c == 10 || c == 13
    then (if ltb 0 (length accum) then ([], push cmd_ring_lines accum cmd) else (accum, cmd))
    else if ltb (length accum) (cmd_line_len - 1)
    then (accum ++ (c ∷ []), cmd)
    else (accum, cmd)

unfoldable pub receive : List ℕ → Line × Ring → Line × Ring
unfolding receive_char
receive [] s = s
receive (c ∷ cs) s = receive cs (receive_char c s)

-- The whole function: whether the banner is written, the lines sent, and what is left.
unfoldable pub task :
    (connected : Bool) (up : ℕ → Bool)
    → List ℕ
    → Task
    → (out cmd : Ring) → Option (Bool × List Line × Task × Ring × Ring)
unfolding drain_out receive
task connected up cs t out cmd = elim (drain_out out_ring_lines up 0 out) [
  | none ↦ none
  | some (sent, out') ↦
      let (accum, cmd') = receive cs (t.accum, cmd) in
      some (
        connected && not t.was_connected,
        sent,
        record { was_connected = connected; accum = accum },
        out',
        cmd',
      )
]
