-- ===== src/UsbSerial/Fifo.antt =====
-- A ring is a bounded queue: first in, first out, full with one slot to spare.
use msx_pulse.Shared.{
  ℕ, zero, suc, ◌+◌, ◌-◌, ◌≤◌, ◌<◌, ◌≡◌, ◌≢◌, refl, ap, sym, ◌⊎◌, inl, inr, ◌∙◌, ◌==◌, ==_refl,
  ==_of_ne, !=-cases, dec_lt, ltb, leb, if◌then◌else◌, none, some, List, [], ◌∷◌, ◌++◌, length,
  arith,
}
use native.Mathlib.Nat.{mod-eq_of_lt, mod_self}
use msx_pulse.UsbSerial.Ring.{Line, Ring, next, push, pop}

-- How far it is from one index of a ring to another.
abbrev pub distance : ℕ → ℕ → ℕ → ℕ
distance size i j = if leb i j then j - i else j + size - i

-- The lines that wait, oldest first.
pub lines_from : (ℕ → Line) → ℕ → ℕ → ℕ → List Line
lines_from lines size i zero = []
lines_from lines size i (suc n) = lines i ∷ lines_from lines size (next size i) n

pub queue : ℕ → Ring → List Line
queue size r = lines_from r.lines size r.read_idx (distance size r.read_idx r.write_idx)

pub record IsRing (size : ℕ) (r : Ring) : Type 0 where
  pub writes : r.write_idx < size
  pub reads : r.read_idx < size

next_lem : (size i : ℕ) → i < size → next size i ≡ (if suc i == size then 0 else suc i)
next_lem size i h = elim (dec_lt (suc i) size) [
  | yes p ↦ mod-eq_of_lt (omega arith) ∙ ground arith
  | no p ↦ let e : i + 1 ≡ size = omega arith in rw e (mod_self size ∙ ground arith)
]

next-fits : (size i : ℕ) → i < size → next size i < size
next-fits size i h = ground (arith, next_lem size i h)

-- One step along the ring is one step nearer.
next_nearer :
    (size i j : ℕ)
    → i < size
    → j < size
    → i ≢ j
    → suc (distance size (next size i) j) ≡ distance size i j
next_nearer size i j hi hj apart = ground (arith, next_lem size i hi)

abbrev stored : (ℕ → Line) → ℕ → Line → ℕ → Line
stored lines w x i = if i == w then x else lines i

-- A write to a slot that is not among them changes none of the lines.
stored_elsewhere :
    (size w : ℕ) (x : Line) (lines : ℕ → Line) (i n : ℕ)
    → i < size
    → w < size
    → n ≤ distance size i w
    → lines_from (stored lines w x) size i n ≡ lines_from lines size i n
unfolding lines_from
stored_elsewhere size w x lines i zero hi hw far = refl
stored_elsewhere size w x lines i (suc n) hi hw far =
    let apart : i ≢ w = λ e. absurd (ground arith) in
    let nearer = next_nearer size i w hi hw apart in
    let rest =
      stored_elsewhere size w x lines (next size i) n (next-fits size i hi) hw (omega arith) in
    rw (==_of_ne i w apart) (ap (λ t. lines i ∷ t) rest)

-- A write just behind them is a line at the end.
stored_behind :
    (size w : ℕ) (x : Line) (lines : ℕ → Line) (i n : ℕ)
    → i < size
    → w < size
    → n ≡ distance size i w
    → lines_from (stored lines w x) size i (suc n) ≡ lines_from lines size i n ++ (x ∷ [])
unfolding lines_from
stored_behind size w x lines i zero hi hw here =
    let e : i ≡ w = ground arith in rw (e, ==_refl w) refl
stored_behind size w x lines i (suc n) hi hw here =
    let apart : i ≢ w = λ e. absurd (ground arith) in
    let nearer = next_nearer size i w hi hw apart in
    let rest =
      stored_behind size w x lines (next size i) n (next-fits size i hi) hw (omega arith) in
    rw (==_of_ne i w apart) (ap (λ t. lines i ∷ t) rest)

length-lines_from : (lines : ℕ → Line) (size i n : ℕ) → length (lines_from lines size i n) ≡ n
unfolding lines_from
length-lines_from lines size i zero = refl
length-lines_from lines size i (suc n) = ap suc (length-lines_from lines size (next size i) n)

-- One step further from `i`, unless that closes the circle.
next_further :
    (size i j : ℕ)
    → i < size
    → j < size
    → next size j ≢ i
    → distance size i (next size j) ≡ suc (distance size i j)
next_further size i j hi hj open_ring = ground (arith, next_lem size j hj)

full_distance :
    (size i j : ℕ) → i < size → j < size → next size j ≡ i → suc (distance size i j) ≡ size
full_distance size i j hi hj full = ground (arith, next_lem size j hj)

distance_lt : (size i j : ℕ) → i < size → j < size → distance size i j < size
distance_lt size i j hi hj = ground arith

-- What a queue of at most `size - 1` lines does with one more.
abbrev pub offer : ℕ → Line → List Line → List Line
offer size line q = if ltb (suc (length q)) size then q ++ (line ∷ []) else q

offer_room :
    (size : ℕ) (line : Line) (q : List Line)
    → suc (length q) < size
    → offer size line q ≡ q ++ (line ∷ [])
offer_room size line q room = ground arith

-- A ring whose indices are in range stays so and is a queue with room for all its slots but one: a
-- line pushed comes last in it, or is dropped if the queue is full.
pub push_lem :
    (size : ℕ) (line : Line) (r : Ring)
    → IsRing size r
    → IsRing size (push size line r)
      × (queue size (push size line r) ≡ offer size line (queue size r))
unfolding push queue
push_lem size line r v = elim (!=-cases (next size r.write_idx) r.read_idx) [
  | inl (full, same) ↦
      let whole = full_distance size r.read_idx r.write_idx v.reads v.writes full in
      rw same (
        v,
        ground (
          arith,
          length-lines_from r.lines size r.read_idx (distance size r.read_idx r.write_idx),
        ),
      )
  | inr (room, differ) ↦ rw differ (
    record { writes = next-fits size r.write_idx v.writes; reads = v.reads },
    ap (lines_from (stored r.lines r.write_idx line) size r.read_idx)
          (next_further size r.read_idx r.write_idx v.reads v.writes room)
        ∙ stored_behind size r.write_idx line r.lines r.read_idx _ v.reads v.writes refl
        ∙ sym (offer_room size line (queue size r) (spare room)),
  )
]
  where
    spare : next size r.write_idx ≢ r.read_idx → suc (length (queue size r)) < size
    spare room = omega (
      arith,
      length-lines_from r.lines size r.read_idx (distance size r.read_idx r.write_idx),
      next_further size r.read_idx r.write_idx v.reads v.writes room,
      distance_lt size r.read_idx (next size r.write_idx) v.reads
          (next-fits size r.write_idx v.writes),
    )

pub queue_empty : (size : ℕ) (r : Ring) → r.read_idx ≡ r.write_idx → queue size r ≡ []
unfolding queue lines_from
queue_empty size r none_waits =
    let no_way : distance size r.read_idx r.write_idx ≡ 0 = ground arith in
    ap (lines_from r.lines size r.read_idx) no_way

pub queue-next :
    (size : ℕ) (r : Ring)
    → IsRing size r
    → r.read_idx ≢ r.write_idx
    → queue size r ≡ r.lines r.read_idx ∷ queue size (record r { read_idx = next size r.read_idx })
unfolding queue lines_from
queue-next size r v some_wait =
    ap (lines_from r.lines size r.read_idx)
      (sym (next_nearer size r.read_idx r.write_idx v.reads v.writes some_wait))

pub next-IsRing :
    (size : ℕ) (r : Ring)
    → IsRing size r
    → IsRing size (record r { read_idx = next size r.read_idx })
next-IsRing size r v = record { writes = v.writes; reads = next-fits size r.read_idx v.reads }

pub length-queue_lt : (size : ℕ) (r : Ring) → IsRing size r → length (queue size r) < size
unfolding queue
length-queue_lt size r v = omega (
  arith,
  length-lines_from r.lines size r.read_idx (distance size r.read_idx r.write_idx),
  distance_lt size r.read_idx r.write_idx v.reads v.writes,
)

-- A pop gives back the line that waits longest and leaves the others, or nothing exactly when none
-- waits; the indices stay in range.
pub pop_lem :
    (size : ℕ) (r : Ring)
    → IsRing size r
    → ((pop size r ≡ none) × (queue size r ≡ []))
      ⊎ ((line : Line) × (r' : Ring) × (pop size r ≡ some (line, r'))
          × (queue size r ≡ line ∷ queue size r')
          × IsRing size r')
unfolding pop
pop_lem size r v = elim (!=-cases r.read_idx r.write_idx) [
  | inl (none_waits, same) ↦ inl (rw same refl, queue_empty size r none_waits)
  | inr (some_wait, differ) ↦ inr (
    r.lines r.read_idx,
    record r { read_idx = next size r.read_idx },
    rw differ refl,
    queue-next size r v some_wait,
    next-IsRing size r v,
  )
]
