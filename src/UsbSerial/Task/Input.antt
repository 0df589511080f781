-- ===== src/UsbSerial/Task/Input.antt =====
-- The input loop cuts what comes in into command lines.
use msx_pulse.Shared.{
  ℕ, zero, suc, ◌-◌, ◌≡◌, refl, ap, sym, ◌∙◌, Bool, true, false, ◌||◌, ◌==◌, ltb, if◌then◌else◌,
  List, [], ◌∷◌, ◌++◌, length, arith, Bool-cases, inl, inr,
}
use msx_pulse.UsbSerial.Ring.{Line, Ring, clip, push, cmd_ring_lines, cmd_line_len}
use msx_pulse.UsbSerial.Fifo.{IsRing, queue, push_lem, offer}
use msx_pulse.UsbSerial.Task.{receive_char, receive}

abbrev is_end : ℕ → Bool
is_end c = c == 10 || c == 13

-- The lines that the characters end, of which `begun` starts the first, and what follows them.
unfoldable pub split_lines : Line → List ℕ → List Line × Line
split_lines begun [] = ([], begun)
split_lines begun (c ∷ cs) =
    let (ended, last) = split_lines [] cs in
    if is_end c then (begun ∷ ended, last) else split_lines (begun ++ (c ∷ [])) cs

-- The queue after the lines, of which empty ones do not count and long ones are cut off.
unfoldable pub offer_all : List Line → List Line → List Line
offer_all [] q = q
offer_all (line ∷ ended) q =
    if ltb 0 (length line)
    then offer_all ended (offer cmd_ring_lines (clip (cmd_line_len - 1) line) q)
    else offer_all ended q

clip-nil : (n : ℕ) → clip n [] ≡ []
unfolding clip
clip-nil zero = refl
clip-nil (suc n) = refl

clip-append :
    (n c : ℕ) (line : Line)
    → clip n (line ++ (c ∷ []))
      ≡ (if ltb (length (clip n line)) n then clip n line ++ (c ∷ []) else clip n line)
unfolding clip
clip-append zero c line = refl
clip-append (suc n) c [] = ground (arith, clip-nil n)
clip-append (suc n) c (d ∷ line) = ground (arith, clip-append n c line)

length-clip : (n : ℕ) (line : Line) → ltb 0 (length (clip (suc n) line)) ≡ ltb 0 (length line)
unfolding clip
length-clip n [] = refl
length-clip n (c ∷ line) = ground arith

-- What the loop has after some characters.
record Received (before : List Line) (ended : List Line) (last : Line) (s : Line × Ring)
    : Type 0 where
  kept : s.0 ≡ clip (cmd_line_len - 1) last
  fits : IsRing cmd_ring_lines s.1
  queued : queue cmd_ring_lines s.1 ≡ offer_all ended before

abbrev room : ℕ
room = cmd_line_len - 1

-- One character, in its three cases.
char_of_line :
    (c : ℕ) (begun : Line) (ring : Ring)
    → is_end c ≡ false
    → receive_char c (clip room begun, ring) ≡ (clip room (begun ++ (c ∷ [])), ring)
unfolding receive_char
char_of_line c begun ring inside = ground (arith, clip-append room c begun)

end_of_line :
    (c : ℕ) (begun : Line) (ring : Ring)
    → is_end c ≡ true
    → ltb 0 (length begun) ≡ true
    → receive_char c (clip room begun, ring) ≡ ([], push cmd_ring_lines (clip room begun) ring)
unfolding receive_char
end_of_line c begun ring outside some = rw (outside, length-clip 62 begun, some) refl

end_of_nothing :
    (c : ℕ) (begun : Line) (ring : Ring)
    → is_end c ≡ true
    → ltb 0 (length begun) ≡ false
    → receive_char c (clip room begun, ring) ≡ ([], ring)
unfolding receive_char clip
end_of_nothing c [] ring outside none = rw outside refl
end_of_nothing c (d ∷ begun) ring outside none = ground arith

-- A line that has ended counts unless it is empty.
line_Received :
    (begun : Line) (ended : List Line) (last : Line) (ring ring' : Ring) (s : Line × Ring)
    → ltb 0 (length begun) ≡ true
    → queue cmd_ring_lines ring'
      ≡ offer cmd_ring_lines (clip room begun) (queue cmd_ring_lines ring)
    → Received (queue cmd_ring_lines ring') ended last s
    → Received (queue cmd_ring_lines ring) (begun ∷ ended) last s
unfolding offer_all
line_Received begun ended last ring ring' s some pushed r = record {
  kept = r.kept;
  fits = r.fits;
  queued = r.queued ∙ ap (offer_all ended) pushed ∙ rw some refl;
}

nothing_Received :
    (begun : Line) (ended : List Line) (last : Line) (q : List Line) (s : Line × Ring)
    → ltb 0 (length begun) ≡ false
    → Received q ended last s
    → Received q (begun ∷ ended) last s
unfolding offer_all
nothing_Received begun ended last q s none r = record {
  kept = r.kept;
  fits = r.fits;
  queued = r.queued ∙ rw none refl;
}

receive_all :
    (cs : List ℕ) (begun accum : Line) (ring : Ring)
    → accum ≡ clip room begun
    → IsRing cmd_ring_lines ring
    → let (ended, last) = split_lines begun cs in
      Received (queue cmd_ring_lines ring) ended last (receive cs (accum, ring))
unfolding receive split_lines offer_all
receive_all [] begun accum ring e v = record { kept = e; fits = v; queued = refl }
receive_all (c ∷ cs) begun accum ring e v = elim (Bool-cases (is_end c)) [
  | inr inside ↦
      rw (e, char_of_line c begun ring inside, inside)
        (receive_all cs (begun ++ (c ∷ [])) (clip room (begun ++ (c ∷ []))) ring refl v)
  | inl outside ↦ elim (Bool-cases (ltb 0 (length begun))) [
    | inl some ↦
        let ring' = push cmd_ring_lines (clip room begun) ring in
        let (v', pushed) = push_lem cmd_ring_lines (clip room begun) ring v in
        rw (e, end_of_line c begun ring outside some, outside)
          (line_Received begun (split_lines [] cs).0 (split_lines [] cs).1 ring ring' _ some pushed
            (receive_all cs [] [] ring' (sym (clip-nil room)) v'))
    | inr none ↦
        rw (e, end_of_nothing c begun ring outside none, outside)
          (nothing_Received begun (split_lines [] cs).0 (split_lines [] cs).1
            (queue cmd_ring_lines ring) _ none (receive_all cs [] [] ring (sym (clip-nil room)) v))
  ]
]

-- Whatever characters come in after a start with an empty buffer, `\n` and `\r` cut them into
-- lines. The buffer then holds the line that has not ended, cut off at 63 characters; and the
-- command queue has been offered every line that ended, in order, less the empty ones and cut off
-- in the same way.
pub receive_lem :
    (cs : List ℕ) (ring : Ring)
    → IsRing cmd_ring_lines ring
    → let (ended, last) = split_lines [] cs in
      let (accum, ring') = receive cs ([], ring) in
      (accum ≡ clip (cmd_line_len - 1) last)
      × IsRing cmd_ring_lines ring'
      × (queue cmd_ring_lines ring' ≡ offer_all ended (queue cmd_ring_lines ring))
receive_lem cs ring v =
    let r = receive_all cs [] [] ring (sym (clip-nil room)) v in (r.kept, r.fits, r.queued)
