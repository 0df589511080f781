-- ===== src/UsbSerial/Task/Output.antt =====
-- The output loop empties the ring.
use msx_pulse.Shared.{
  ℕ, zero, suc, ◌<◌, ◌≡◌, ◌≢◌, refl, ap, Bool, ==_refl, ==_of_ne, if◌then◌else◌, Option, some, List,
  [], ◌∷◌, length, arith, !=-cases, inl, inr,
}
use msx_pulse.UsbSerial.Ring.{Line, Ring, next, out_ring_lines}
use msx_pulse.UsbSerial.Fifo.{IsRing, queue, queue_empty, queue-next, next-IsRing, length-queue_lt}
use msx_pulse.UsbSerial.Task.{drain_out}

-- The lines that find a connection.
unfoldable pub sent_of : (ℕ → Bool) → ℕ → List Line → List Line
sent_of up i [] = []
sent_of up i (line ∷ q) = if up i then line ∷ sent_of up (suc i) q else sent_of up (suc i) q

-- The result of the loop for a queue.
Sends : (ℕ → Bool) → ℕ → List Line → Option (List Line × Ring) → Type 0
Sends up i q out =
    (ring' : Ring) × (out ≡ some (sent_of up i q, ring'))
    × IsRing out_ring_lines ring'
    × (queue out_ring_lines ring' ≡ [])

-- The first line goes out if it finds a connection, before what the rest of the loop sends.
send_first :
    (fuel : ℕ) (up : ℕ → Bool) (i : ℕ) (ring : Ring) (q : List Line)
    → ring.read_idx ≢ ring.write_idx
    → Sends up
        (suc i)
        q
        (drain_out fuel up (suc i) (record ring { read_idx = next out_ring_lines ring.read_idx }))
    → Sends up i (ring.lines ring.read_idx ∷ q) (drain_out (suc fuel) up i ring)
unfolding drain_out Sends sent_of
send_first fuel up i ring q some_wait (ring', run, v', empty) =
    (ring', rw (==_of_ne ring.read_idx ring.write_idx some_wait, run) (ground arith), v', empty)

send_none :
    (fuel : ℕ) (up : ℕ → Bool) (i : ℕ) (ring : Ring)
    → IsRing out_ring_lines ring
    → ring.read_idx ≡ ring.write_idx
    → Sends up i [] (drain_out (suc fuel) up i ring)
unfolding drain_out Sends sent_of
send_none fuel up i ring v none_waits = (
  ring,
  rw (none_waits, ==_refl ring.write_idx) refl,
  v,
  queue_empty out_ring_lines ring none_waits,
)

drain_out-Sends :
    (fuel : ℕ) (up : ℕ → Bool) (i : ℕ) (ring : Ring)
    → IsRing out_ring_lines ring
    → length (queue out_ring_lines ring) < fuel
    → Sends up i (queue out_ring_lines ring) (drain_out fuel up i ring)
drain_out-Sends zero up i ring v enough = absurd (omega arith)
drain_out-Sends (suc fuel) up i ring v enough = elim (!=-cases ring.read_idx ring.write_idx) [
  | inl (none_waits, same) ↦
      rw (queue_empty out_ring_lines ring none_waits) (send_none fuel up i ring v none_waits)
  | inr (some_wait, differ) ↦
      let ring' = record ring { read_idx = next out_ring_lines ring.read_idx } in
      let split = queue-next out_ring_lines ring v some_wait in
      rw split (
        send_first fuel up i ring (queue out_ring_lines ring') some_wait (
          drain_out-Sends fuel up (suc i) ring' (next-IsRing out_ring_lines ring v)
            (omega (arith, ap length split))))
]

-- From a ring with its indices in range the loop ends within as many rounds as the ring has slots,
-- sends the waiting lines in order, each if a connection is found at its turn, and leaves the ring
-- empty: a line that finds no connection is lost.
pub drain_out_lem :
    (up : ℕ → Bool) (ring : Ring)
    → IsRing out_ring_lines ring
    → (ring' : Ring) × (drain_out out_ring_lines up 0 ring
        ≡ some (sent_of up 0 (queue out_ring_lines ring), ring'))
      × IsRing out_ring_lines ring'
      × (queue out_ring_lines ring' ≡ [])
unfolding Sends
drain_out_lem up ring v =
    drain_out-Sends out_ring_lines up 0 ring v (length-queue_lt out_ring_lines ring v)
