-- ===== src/BootDetect/Evidence.antt =====
-- Which bus event shows which phase, and that the flags are exactly that.
use msx_pulse.Shared.{
  ℕ, ◌%◌, ◌^◌, ◌<◌, ◌≡◌, refl, bit, bit-bit_or, bit-zero, bit_two_pow, two_pow_fits, Bool, true,
  false, ◌&&◌, ◌||◌, List, [], ◌∷◌, any, ◌==◌, leb, arith,
}
use msx_pulse.BootDetect.{
  BootDetect, BusEvent, EventKind, fetch, mem_read, mem_write, io_read, io_write, cleared, reset,
  recompute_derived, set_phase, latch_header, feed_fetch, feed_mem_read, feed_mem_write,
  feed_io_write, dispatch, feed, feed_all,
}

abbrev pub is_fetch : EventKind → Bool
is_fetch fetch = true
is_fetch _ = false

abbrev pub is_mem_read : EventKind → Bool
is_mem_read mem_read = true
is_mem_read _ = false

abbrev pub is_mem_write : EventKind → Bool
is_mem_write mem_write = true
is_mem_write _ = false

abbrev pub is_io_write : EventKind → Bool
is_io_write io_write = true
is_io_write _ = false

abbrev pub fetches : BusEvent → ℕ → Bool
fetches e addr = is_fetch e.kind && (e.addr == addr)

abbrev pub writes_port : BusEvent → ℕ → Bool
writes_port e port = is_io_write e.kind && (e.addr % 256 == port)

-- The milestones of the boot: what shows that a phase was reached.
abbrev pub milestones : List (ℕ × (BusEvent → Bool))
milestones =
    (0, λ e. fetches e 0x0000)
    ∷ (1, λ e. fetches e 0x02d7 || writes_port e 0xa8 || writes_port e 0xaa || writes_port e 0xab)
    ∷ (
      2,
      λ e. writes_port e 0xa8 || (is_mem_write e.kind && (e.addr == 0xbf00 || leb 0xc000 e.addr)),
    )
    ∷ (3, λ e. fetches e 0x03f8)
    ∷ (4, λ e. fetches e 0x2680)
    ∷ (5, λ e. fetches e 0x7c76 || (is_mem_write e.kind && (e.addr == 0xfd9a)))
    ∷ (6, λ e. fetches e 0x003b || fetches e 0x003e || fetches e 0x0069 || fetches e 0x006f)
    ∷ (7, λ e. writes_port e 0x98 || writes_port e 0x99)
    ∷ (8, λ e. fetches e 0x7d75 || (is_mem_read e.kind && (e.addr == 0x4000 || e.addr == 0x4001)))
    ∷ []

abbrev pub shows : ℕ → BusEvent → Bool
shows p e = any (λ m. (p == m.0) && m.1 e) milestones

set_phase-bit :
    (p q : ℕ) (s : BootDetect)
    → q < 16
    → bit p (set_phase q s).phase_flags ≡ (bit p s.phase_flags || (p == q))
unfolding set_phase recompute_derived
set_phase-bit p q s hq =
    ground (arith, two_pow_fits 16 q hq, bit-bit_or p s.phase_flags (2 ^ q), bit_two_pow p q)

latch_header-flags :
    (addr data_byte : ℕ) (s : BootDetect)
    → (latch_header addr data_byte s).phase_flags ≡ s.phase_flags
unfolding latch_header
latch_header-flags addr data_byte s = ground arith

-- One kind of event at a time.
module _ (p : ℕ) (s : BootDetect) (e : BusEvent) where
  feed_fetch-bit :
      e.kind ≡ fetch → bit p (feed_fetch e.addr s).phase_flags ≡ (bit p s.phase_flags || shows p e)
  unfolding feed_fetch
  feed_fetch-bit k = ground (
    arith,
    set_phase-bit p 0 s (omega arith),
    set_phase-bit p 1 s (omega arith),
    set_phase-bit p 3 s (omega arith),
    set_phase-bit p 4 s (omega arith),
    set_phase-bit p 5 s (omega arith),
    set_phase-bit p 6 s (omega arith),
    set_phase-bit p 8 s (omega arith),
  )

  feed_mem_read-bit :
      e.kind ≡ mem_read
      → bit p (feed_mem_read e.addr e.data_byte e.data_valid s).phase_flags
        ≡ (bit p s.phase_flags || shows p e)
  unfolding feed_mem_read
  feed_mem_read-bit k = ground (
    arith,
    latch_header-flags e.addr e.data_byte (set_phase 8 s),
    set_phase-bit p 8 s (omega arith),
  )

  feed_mem_write-bit :
      e.kind ≡ mem_write
      → bit p (feed_mem_write e.addr s).phase_flags ≡ (bit p s.phase_flags || shows p e)
  unfolding feed_mem_write
  feed_mem_write-bit k =
      let started = record s { basic_workarea_init = true } in
      ground (
        arith,
        set_phase-bit p 2 s (omega arith),
        set_phase-bit p 5 started (omega arith),
        set_phase-bit p 2 (set_phase 5 started) (omega arith),
      )

  feed_io_write-bit :
      e.kind ≡ io_write
      → bit p (feed_io_write e.addr s).phase_flags ≡ (bit p s.phase_flags || shows p e)
  unfolding feed_io_write
  feed_io_write-bit k =
      let early = record s { early_ppi_writes = true } in
      ground (
        arith,
        set_phase-bit p 1 early (omega arith),
        set_phase-bit p 2 (set_phase 1 early) (omega arith),
        set_phase-bit p 7 s (omega arith),
      )

  feed_io_read-bit : e.kind ≡ io_read → bit p s.phase_flags ≡ (bit p s.phase_flags || shows p e)
  feed_io_read-bit k = ground arith

dispatch-bit :
    (p : ℕ) (s : BootDetect) (k : EventKind) (e : BusEvent)
    → let e' = record e { kind = k } in
      bit p (dispatch k e' s).phase_flags ≡ (bit p s.phase_flags || shows p e')
unfolding dispatch
dispatch-bit p s fetch e = feed_fetch-bit p s (record e { kind = fetch }) refl
dispatch-bit p s mem_read e = feed_mem_read-bit p s (record e { kind = mem_read }) refl
dispatch-bit p s mem_write e = feed_mem_write-bit p s (record e { kind = mem_write }) refl
dispatch-bit p s io_read e = feed_io_read-bit p s (record e { kind = io_read }) refl
dispatch-bit p s io_write e = feed_io_write-bit p s (record e { kind = io_write }) refl

feed-bit :
    (p : ℕ) (s : BootDetect) (e : BusEvent)
    → bit p (feed s e).phase_flags ≡ (bit p s.phase_flags || shows p e)
unfolding feed
feed-bit p s e = dispatch-bit p s e.kind e

feed_all-bit :
    (p : ℕ) (s : BootDetect) (es : List BusEvent)
    → bit p (feed_all s es).phase_flags ≡ (bit p s.phase_flags || any (shows p) es)
unfolding feed_all
feed_all-bit p s [] = ground arith
feed_all-bit p s (e ∷ es) = ground (arith, feed-bit p s e, feed_all-bit p (feed s e) es)

-- After a reset and any sequence of bus events, the flag of a phase is set exactly when one of the
-- events was a milestone of that phase. One write to port A8h is a milestone of phases 1 and 2.
pub phase_flags_lem :
    (p : ℕ) (es : List BusEvent) → bit p (feed_all reset es).phase_flags ≡ any (shows p) es
unfolding reset recompute_derived cleared
phase_flags_lem p es = ground (arith, feed_all-bit p reset es, bit-zero p)
