-- ===== src/BootDetect/Derived.antt =====
-- The two fields that `recompute_derived` keeps: the highest phase seen and the lowest missing one.
use msx_pulse.Shared.{
  ℕ, zero, suc, ◌+◌, ◌%◌, ◌^◌, ◌≤◌, ◌<◌, ◌≡◌, refl, inl, inr, bit, bit_or, bit_or_lt, has_bit-bit,
  Bool, true, false, Bool-cases, if_keeps, List, [], ◌∷◌, ◌==◌, ℤ, pos, negsuc, arith, two_pow_fits,
  two_pow_lt, dec_lt, zero-add, suc-add, add-suc, has_bit, if◌then◌else◌,
}
use msx_pulse.BootDetect.{
  BootDetect, BusEvent, fetch, mem_read, mem_write, io_read, io_write, highest_set, lowest_unset,
  recompute_derived, reset, set_phase, latch_header, feed_fetch, feed_mem_read, feed_mem_write,
  feed_io_write, feed, feed_all, dispatch, cleared,
}

-- `last` is the highest set bit below `n`, or -1 if there is none.
abbrev pub IsHighest : ℕ → ℕ → ℤ → Type 0
IsHighest n flags (negsuc m) = (m ≡ 0) × ((k : ℕ) → k < n → bit k flags ≡ false)
IsHighest n flags (pos m) =
    (m < n) × (bit m flags ≡ true) × ((k : ℕ) → m < k → k < n → bit k flags ≡ false)

-- `first` is the lowest clear bit below `n`, or `n` if there is none.
abbrev pub IsLowest : ℕ → ℕ → ℤ → Type 0
IsLowest n flags (negsuc m) = ⊥
IsLowest n flags (pos m) =
    (m ≤ n) × ((k : ℕ) → k < m → bit k flags ≡ true) × (m < n → bit m flags ≡ false)

pub record IsDerived (s : BootDetect) : Type 0 where
  pub fits : s.phase_flags < 2 ^ 9
  pub highest : IsHighest 9 s.phase_flags s.last_confirmed
  pub lowest : IsLowest 9 s.phase_flags s.first_missing

-- A test below `suc i`, from one below `i` and one at `i`.
below_suc :
    (i : ℕ) (flags : ℕ) (b : Bool)
    → ((k : ℕ) → k < i → bit k flags ≡ b)
    → bit i flags ≡ b
    → (k : ℕ) → k < suc i
    → bit k flags ≡ b
below_suc i flags b below here k hk = elim (dec_lt k i) [
  | yes p ↦ below k p
  | no p ↦ let e : k ≡ i = omega arith in rw e here
]

-- One round: the highest set bit below `i` gives that below `i + 1`.
IsHighest-clear :
    (i flags : ℕ) (last : ℤ)
    → bit i flags ≡ false
    → IsHighest i flags last
    → IsHighest (suc i) flags last
IsHighest-clear i flags (negsuc m) clear h = (h.0, below_suc i flags false h.1 clear)
IsHighest-clear i flags (pos m) clear h = (
  omega arith,
  h.1,
  λ k above hk. elim (dec_lt k i) [
    | yes p ↦ h.2 k above p
    | no p ↦ let e : k ≡ i = omega arith in rw e clear
  ],
)

IsHighest-round :
    (i flags : ℕ) (last : ℤ)
    → IsHighest i flags last
    → IsHighest (suc i) flags (if has_bit flags i then pos i else last)
IsHighest-round i flags last h = elim (Bool-cases (bit i flags)) [
  | inl set ↦ rw (has_bit-bit, set) (omega arith, set, λ k above hk. absurd (omega arith))
  | inr clear ↦ rw (has_bit-bit, clear) (IsHighest-clear i flags last clear h)
]

highest_set-IsHighest :
    (n i flags : ℕ) (last : ℤ)
    → IsHighest i flags last
    → IsHighest (n + i) flags (highest_set n i flags last)
unfolding highest_set
highest_set-IsHighest zero i flags last h = rw zero-add h
highest_set-IsHighest (suc n) i flags last h = rw suc-add (
    rw (← add-suc) (
      highest_set-IsHighest n (suc i) flags (if has_bit flags i then pos i else last)
        (IsHighest-round i flags last h)))

lowest_unset-IsLowest :
    (n i flags : ℕ)
    → n + i ≡ 9
    → ((k : ℕ) → k < i → bit k flags ≡ true)
    → IsLowest 9 flags (lowest_unset n i flags)
unfolding lowest_unset
lowest_unset-IsLowest zero i flags e below =
    (omega arith, λ k hk. below k (omega arith), λ h. absurd (omega arith))
lowest_unset-IsLowest (suc n) i flags e below = elim (Bool-cases (bit i flags)) [
  | inl set ↦
      rw (has_bit-bit, set)
        (lowest_unset-IsLowest n (suc i) flags (omega arith) (below_suc i flags true below set))
  | inr clear ↦ rw (has_bit-bit, clear) (omega arith, below, λ _. clear)
]

recompute_derived-IsDerived :
    (s : BootDetect) → s.phase_flags < 2 ^ 9 → IsDerived (recompute_derived s)
unfolding recompute_derived
recompute_derived-IsDerived s fits = record {
  fits = fits;
  highest = highest_set-IsHighest 9 0 s.phase_flags (negsuc 0) (refl, λ k hk. absurd (omega arith));
  lowest = lowest_unset-IsLowest 9 0 s.phase_flags refl (λ k hk. absurd (omega arith));
}

set_phase-IsDerived :
    (p : ℕ) (s : BootDetect) → p < 9 → s.phase_flags < 2 ^ 9 → IsDerived (set_phase p s)
unfolding set_phase
set_phase-IsDerived p s hp fits =
    recompute_derived-IsDerived (record s { phase_flags = bit_or s.phase_flags (2 ^ p % 2 ^ 16) })
      (bit_or_lt 9 s.phase_flags (2 ^ p % 2 ^ 16) fits
        (rw (two_pow_fits 16 p (omega arith)) (two_pow_lt 9 p hp)))

reset-IsDerived : IsDerived reset
unfolding reset cleared
reset-IsDerived = recompute_derived-IsDerived cleared (omega arith)

-- A step that leaves the three fields keeps the invariant.
record SamePhases (s t : BootDetect) : Type 0 where
  flags : t.phase_flags ≡ s.phase_flags
  last : t.last_confirmed ≡ s.last_confirmed
  first : t.first_missing ≡ s.first_missing

SamePhases-IsDerived : {s t : BootDetect} → SamePhases s t → IsDerived s → IsDerived t
SamePhases-IsDerived same v = record {
  fits = rw same.flags v.fits;
  highest = rw (same.flags, same.last) v.highest;
  lowest = rw (same.flags, same.first) v.lowest;
}

latch_header-SamePhases :
    (addr data_byte : ℕ) (s : BootDetect) → SamePhases s (latch_header addr data_byte s)
unfolding latch_header
latch_header-SamePhases addr data_byte s = ground arith

module _ (s : BootDetect) (v : IsDerived s) where
  marks : (p : ℕ) → p < 9 → IsDerived (set_phase p s)
  marks p hp = set_phase-IsDerived p s hp v.fits

  feed_fetch-IsDerived : (addr : ℕ) → IsDerived (feed_fetch addr s)
  unfolding feed_fetch
  feed_fetch-IsDerived addr = if_keeps IsDerived _ (marks 0 (omega arith)) (
      if_keeps IsDerived _ (marks 1 (omega arith)) (
        if_keeps IsDerived _ (marks 3 (omega arith)) (
          if_keeps IsDerived _ (marks 4 (omega arith)) (
            if_keeps IsDerived _ (marks 5 (omega arith)) (
              if_keeps IsDerived _ (marks 6 (omega arith))
                (if_keeps IsDerived _ (marks 8 (omega arith)) v))))))

  feed_mem_read-IsDerived :
      (addr data_byte : ℕ) (valid : Bool) → IsDerived (feed_mem_read addr data_byte valid s)
  unfolding feed_mem_read
  feed_mem_read-IsDerived addr data_byte valid =
      let marked : IsDerived (set_phase 8 s) = marks 8 (omega arith) in
      let latched =
        SamePhases-IsDerived (latch_header-SamePhases addr data_byte (set_phase 8 s)) marked in
      if_keeps IsDerived _ (if_keeps IsDerived valid latched marked) v

  feed_mem_write-IsDerived : (addr : ℕ) → IsDerived (feed_mem_write addr s)
  unfolding feed_mem_write
  feed_mem_write-IsDerived addr =
      let started =
        if_keeps IsDerived (addr == 0xfd9a)
          (set_phase-IsDerived 5 (record s { basic_workarea_init = true }) (omega arith) v.fits)
          v in
      if_keeps IsDerived _ (set_phase-IsDerived 2 _ (omega arith) started.fits) started

  feed_io_write-IsDerived : (addr : ℕ) → IsDerived (feed_io_write addr s)
  unfolding feed_io_write
  feed_io_write-IsDerived addr =
      let early =
        set_phase-IsDerived 1 (record s { early_ppi_writes = true }) (omega arith) v.fits in
      if_keeps IsDerived _
        (if_keeps IsDerived _ (set_phase-IsDerived 2 _ (omega arith) early.fits) early)
        (if_keeps IsDerived _ (marks 7 (omega arith)) v)

feed-IsDerived : (s : BootDetect) (e : BusEvent) → IsDerived s → IsDerived (feed s e)
unfolding feed
feed-IsDerived s e v = elim e.kind as (λ k. IsDerived (dispatch k e s)) [
  | fetch ↦ feed_fetch-IsDerived s v e.addr
  | mem_read ↦ feed_mem_read-IsDerived s v e.addr e.data_byte e.data_valid
  | mem_write ↦ feed_mem_write-IsDerived s v e.addr
  | io_read ↦ v
  | io_write ↦ feed_io_write-IsDerived s v e.addr
]

pub feed_all-IsDerived :
    (s : BootDetect) (es : List BusEvent) → IsDerived s → IsDerived (feed_all s es)
unfolding feed_all
feed_all-IsDerived s [] v = v
feed_all-IsDerived s (e ∷ es) v = feed_all-IsDerived (feed s e) es (feed-IsDerived s e v)

-- After any sequence of bus events, `last_confirmed` is the highest phase whose flag is set (-1 if
-- none is), `first_missing` is the lowest phase whose flag is clear (9 if all are set), and no flag
-- beyond the nine is set.
pub confirmed_lem : (es : List BusEvent) → IsDerived (feed_all reset es)
confirmed_lem es = feed_all-IsDerived reset es reset-IsDerived
