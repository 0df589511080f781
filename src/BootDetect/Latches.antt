-- ===== src/BootDetect/Latches.antt =====
-- The other things that the detector remembers: the cartridge header and two side effects.
use msx_pulse.Shared.{
  ℕ, ◌≡◌, refl, ap, ap₂, ◌∙◌, Bool, true, ◌&&◌, ◌||◌, List, [], ◌∷◌, any, ◌==◌, if◌then◌else◌,
  arith,
}
use msx_pulse.BootDetect.{
  BootDetect, BusEvent, EventKind, fetch, mem_read, mem_write, io_read, io_write, cleared, reset,
  recompute_derived, set_phase, latch_header, feed_fetch, feed_mem_read, feed_mem_write,
  feed_io_write, dispatch, feed, feed_all,
}
use msx_pulse.BootDetect.Evidence.{is_mem_read, is_mem_write, writes_port}

-- A header byte that was sampled after the cartridge drove it.
abbrev pub reads_header : BusEvent → ℕ → Bool
reads_header e addr = is_mem_read e.kind && e.data_valid && (e.addr == addr)

-- What is known of a header byte after one more event.
abbrev pub latest : ℕ → BusEvent → ℕ → ℕ
latest addr e known = if reads_header e addr then e.data_byte else known

abbrev pub last_header : ℕ → ℕ → List BusEvent → ℕ
last_header addr known [] = known
last_header addr known (e ∷ es) = last_header addr (latest addr e known) es

abbrev pub is_ab : ℕ → ℕ → Bool
is_ab h0 h1 = h0 == 0x41 && h1 == 0x42

-- At some moment of the run the two bytes known were "AB".
abbrev pub saw_ab : ℕ → ℕ → List BusEvent → Bool
saw_ab h0 h1 [] = is_ab h0 h1
saw_ab h0 h1 (e ∷ es) = is_ab h0 h1 || saw_ab (latest 0x4000 e h0) (latest 0x4001 e h1) es

abbrev pub writes_ppi : BusEvent → Bool
writes_ppi e = writes_port e 0xab || writes_port e 0xa8 || writes_port e 0xaa

abbrev pub writes_workarea : BusEvent → Bool
writes_workarea e = is_mem_write e.kind && (e.addr == 0xfd9a)

-- What one event does to the fields that are not about phases.
record Latched (s : BootDetect) (e : BusEvent) (t : BootDetect) : Type 0 where
  h0 : t.header_4000 ≡ latest 0x4000 e s.header_4000
  h1 : t.header_4001 ≡ latest 0x4001 e s.header_4001
  read : t.header_read ≡ (
      s.header_read
      || ((reads_header e 0x4000 || reads_header e 0x4001) && is_ab t.header_4000 t.header_4001))
  ppi : t.early_ppi_writes ≡ (s.early_ppi_writes || writes_ppi e)
  workarea : t.basic_workarea_init ≡ (s.basic_workarea_init || writes_workarea e)

-- `set_phase` leaves them all.
record SameLatches (s t : BootDetect) : Type 0 where
  h0 : t.header_4000 ≡ s.header_4000
  h1 : t.header_4001 ≡ s.header_4001
  read : t.header_read ≡ s.header_read
  ppi : t.early_ppi_writes ≡ s.early_ppi_writes
  workarea : t.basic_workarea_init ≡ s.basic_workarea_init

set_phase-SameLatches : (p : ℕ) (s : BootDetect) → SameLatches s (set_phase p s)
unfolding set_phase recompute_derived
set_phase-SameLatches p s = record {
  h0 = refl;
  h1 = refl;
  read = refl;
  ppi = refl;
  workarea = refl;
}

module _ (s : BootDetect) (e : BusEvent) where
  feed_fetch-Latched : e.kind ≡ fetch → Latched s e (feed_fetch e.addr s)
  unfolding feed_fetch
  feed_fetch-Latched k = ground (
    arith,
    set_phase-SameLatches 0 s,
    set_phase-SameLatches 1 s,
    set_phase-SameLatches 3 s,
    set_phase-SameLatches 4 s,
    set_phase-SameLatches 5 s,
    set_phase-SameLatches 6 s,
    set_phase-SameLatches 8 s,
  )

  feed_mem_read-Latched :
      e.kind ≡ mem_read → Latched s e (feed_mem_read e.addr e.data_byte e.data_valid s)
  unfolding feed_mem_read latch_header
  feed_mem_read-Latched k = ground (arith, set_phase-SameLatches 8 s)

  feed_mem_write-Latched : e.kind ≡ mem_write → Latched s e (feed_mem_write e.addr s)
  unfolding feed_mem_write
  feed_mem_write-Latched k =
      let started = record s { basic_workarea_init = true } in
      ground (
        arith,
        set_phase-SameLatches 5 started,
        set_phase-SameLatches 2 s,
        set_phase-SameLatches 2 (set_phase 5 started),
      )

  feed_io_read-Latched : e.kind ≡ io_read → Latched s e s
  feed_io_read-Latched k = ground arith

  feed_io_write-Latched : e.kind ≡ io_write → Latched s e (feed_io_write e.addr s)
  unfolding feed_io_write
  feed_io_write-Latched k =
      let early = record s { early_ppi_writes = true } in
      ground (
        arith,
        set_phase-SameLatches 1 early,
        set_phase-SameLatches 2 (set_phase 1 early),
        set_phase-SameLatches 7 s,
      )

dispatch-Latched :
    (s : BootDetect) (k : EventKind) (e : BusEvent)
    → let e' = record e { kind = k } in Latched s e' (dispatch k e' s)
unfolding dispatch
dispatch-Latched s fetch e = feed_fetch-Latched s (record e { kind = fetch }) refl
dispatch-Latched s mem_read e = feed_mem_read-Latched s (record e { kind = mem_read }) refl
dispatch-Latched s mem_write e = feed_mem_write-Latched s (record e { kind = mem_write }) refl
dispatch-Latched s io_read e = feed_io_read-Latched s (record e { kind = io_read }) refl
dispatch-Latched s io_write e = feed_io_write-Latched s (record e { kind = io_write }) refl

feed-Latched : (s : BootDetect) (e : BusEvent) → Latched s e (feed s e)
unfolding feed
feed-Latched s e = dispatch-Latched s e.kind e

-- Over a run: "AB" among the known bytes never goes unnoticed.
abbrev Noticed : BootDetect → Type 0
Noticed s = is_ab s.header_4000 s.header_4001 ≡ true → s.header_read ≡ true

feed-Noticed : (s : BootDetect) (e : BusEvent) → Noticed s → Noticed (feed s e)
feed-Noticed s e seen = λ h. ground (arith, feed-Latched s e)

saw_ab_now : (h0 h1 : ℕ) (es : List BusEvent) → is_ab h0 h1 ≡ true → saw_ab h0 h1 es ≡ true
saw_ab_now h0 h1 [] h = h
saw_ab_now h0 h1 (e ∷ es) h = rw h refl

Noticed-once :
    (s : BootDetect) (e : BusEvent) (es : List BusEvent) (t : BootDetect)
    → Latched s e t
    → Noticed s
    → (t.header_read || saw_ab t.header_4000 t.header_4001 es)
      ≡ (s.header_read || saw_ab s.header_4000 s.header_4001 (e ∷ es))
Noticed-once s e es t step seen = ground (
  arith,
  saw_ab_now t.header_4000 t.header_4001 es,
  ap₂ (λ (x y : ℕ). saw_ab x y es) step.h0 step.h1,
)

feed_all-header :
    (s : BootDetect) (es : List BusEvent)
    → Noticed s
    → ((feed_all s es).header_4000 ≡ last_header 0x4000 s.header_4000 es)
      × ((feed_all s es).header_4001 ≡ last_header 0x4001 s.header_4001 es)
      × ((feed_all s es).header_read ≡ (s.header_read || saw_ab s.header_4000 s.header_4001 es))
unfolding feed_all
feed_all-header s [] seen = ground arith
feed_all-header s (e ∷ es) seen =
    let after = feed_all-header (feed s e) es (feed-Noticed s e seen) in
    let step = feed-Latched s e in
    (
      after.0 ∙ ap (λ (h : ℕ). last_header 0x4000 h es) step.h0,
      after.1 ∙ ap (λ (h : ℕ). last_header 0x4001 h es) step.h1,
      after.2 ∙ Noticed-once s e es (feed s e) step seen,
    )

feed_all-effects :
    (s : BootDetect) (es : List BusEvent)
    → ((feed_all s es).early_ppi_writes ≡ (s.early_ppi_writes || any writes_ppi es))
      × ((feed_all s es).basic_workarea_init ≡ (s.basic_workarea_init || any writes_workarea es))
unfolding feed_all
feed_all-effects s [] = ground arith
feed_all-effects s (e ∷ es) = ground (arith, feed-Latched s e, feed_all-effects (feed s e) es)

-- After a reset and any events, each header byte is the one that the last trusted read of its
-- address returned (0xFF if there was none); `header_read` is set exactly when at some moment the
-- two bytes known so were "AB"; and the two side effects are noted exactly when an event was a
-- write to a PPI port, whatever its data, or to the BASIC work area.
pub latches_lem :
    (es : List BusEvent)
    → let s = feed_all reset es in
      (s.header_4000 ≡ last_header 0x4000 0xff es)
      × (s.header_4001 ≡ last_header 0x4001 0xff es)
      × (s.header_read ≡ saw_ab 0xff 0xff es)
      × (s.early_ppi_writes ≡ any writes_ppi es)
      × (s.basic_workarea_init ≡ any writes_workarea es)
unfolding reset recompute_derived cleared
latches_lem es =
    let header = feed_all-header reset es (λ h. cc) in
    let effects = feed_all-effects reset es in (header.0, header.1, header.2, effects.0, effects.1)
