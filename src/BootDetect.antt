-- ===== src/BootDetect.antt =====
-- src/firmware/boot_detect.h and boot_detect.c: the detector of boot phases. The static `s` is
-- passed along; a phase is its index.
pub mod Derived
pub mod Status
pub mod Evidence
pub mod Latches
pub mod Names
mod Tests
use msx_pulse.Shared.{
  ℕ, zero, suc, ◌+◌, ◌%◌, ◌^◌, bit_and, bit_or, has_bit, Bool, true, false, not, ◌&&◌, ◌||◌, ◌==◌,
  ◌!=◌, leb, if◌then◌else◌, ℤ, pos, negsuc, ◌==ℤ◌, List, [], ◌∷◌,
}

abbrev pub reset_vector : ℕ
reset_vector = 0

abbrev pub bios_entry : ℕ
bios_entry = 1

abbrev pub slot_ram_probe : ℕ
slot_ram_probe = 2

abbrev pub bios_init_done : ℕ
bios_init_done = 3

abbrev pub basic_handoff : ℕ
basic_handoff = 4

abbrev pub basic_coldstart : ℕ
basic_coldstart = 5

abbrev pub basic_bios_vecs : ℕ
basic_bios_vecs = 6

abbrev pub vdp_init : ℕ
vdp_init = 7

abbrev pub cart_scan : ℕ
cart_scan = 8

abbrev pub phase_count : ℕ
phase_count = 9

-- `boot_phase_status_t`
pub data PhaseStatus : Type 0 where
  phase_ok stalled not_reached : PhaseStatus

-- `bus_event_kind_t`
pub data EventKind : Type 0 where
  fetch mem_read mem_write io_read io_write : EventKind

pub record BusEvent : Type 0 where
  pub kind : EventKind
  pub addr : ℕ
  pub data_byte : ℕ
  pub data_valid : Bool

pub record BootDetect : Type 0 where
  pub phase_flags : ℕ
  pub early_ppi_writes : Bool
  pub basic_workarea_init : Bool
  pub header_read : Bool
  pub header_4000 : ℕ
  pub header_4001 : ℕ
  pub last_confirmed : ℤ
  pub first_missing : ℤ

-- The two loops of `recompute_derived`, at index `i` with `n` rounds left.
pub highest_set : ℕ → ℕ → ℕ → ℤ → ℤ
highest_set zero i flags last = last
highest_set (suc n) i flags last =
    highest_set n (suc i) flags (if has_bit flags i then pos i else last)

pub lowest_unset : ℕ → ℕ → ℕ → ℤ
lowest_unset zero i flags = pos phase_count
lowest_unset (suc n) i flags = if not (has_bit flags i) then pos i else lowest_unset n (suc i) flags

pub recompute_derived : BootDetect → BootDetect
recompute_derived s = record s {
  last_confirmed = highest_set phase_count 0 s.phase_flags (negsuc 0);
  first_missing = lowest_unset phase_count 0 s.phase_flags;
}

-- What `boot_detect_reset` writes before it recomputes the rest.
pub cleared : BootDetect
cleared = record {
  phase_flags = 0;
  early_ppi_writes = false;
  basic_workarea_init = false;
  header_read = false;
  header_4000 = 0xff;
  header_4001 = 0xff;
  last_confirmed = pos 0;
  first_missing = pos 0;
}

unfoldable pub reset : BootDetect
unfolding recompute_derived highest_set lowest_unset cleared
reset = recompute_derived cleared

unfoldable pub set_phase : ℕ → BootDetect → BootDetect
unfolding recompute_derived highest_set lowest_unset
set_phase p s = recompute_derived (record s { phase_flags = bit_or s.phase_flags (2 ^ p % 2 ^ 16) })

unfoldable pub feed_fetch : ℕ → BootDetect → BootDetect
feed_fetch addr s =
    if addr == 0x0000
    then set_phase reset_vector s
    else if addr == 0x02d7
    then set_phase bios_entry s
    else if addr == 0x03f8
    then set_phase bios_init_done s
    else if addr == 0x2680
    then set_phase basic_handoff s
    else if addr == 0x7c76
    then set_phase basic_coldstart s
    else if addr == 0x003e || addr == 0x003b || addr == 0x006f || addr == 0x0069
    then set_phase basic_bios_vecs s
    else if addr == 0x7d75
    then set_phase cart_scan s
    else s

-- The header byte of a trusted read.
unfoldable pub latch_header : ℕ → ℕ → BootDetect → BootDetect
latch_header addr data_byte s =
    let t =
      if addr == 0x4000
      then record s { header_4000 = data_byte }
      else record s { header_4001 = data_byte } in
    if t.header_4000 == 0x41 && t.header_4001 == 0x42 then record t { header_read = true } else t

unfoldable pub feed_mem_read : ℕ → ℕ → Bool → BootDetect → BootDetect
feed_mem_read addr data_byte data_valid s =
    let t = set_phase cart_scan s in
    if addr == 0x4000 || addr == 0x4001
    then (if data_valid then latch_header addr data_byte t else t)
    else s

unfoldable pub feed_mem_write : ℕ → BootDetect → BootDetect
feed_mem_write addr s =
    let t =
      if addr == 0xfd9a
      then set_phase basic_coldstart (record s { basic_workarea_init = true })
      else s in
    if addr == 0xffff || addr == 0xbf00 || addr == 0xfe00 || leb 0xc000 addr
    then set_phase slot_ram_probe t
    else t

unfoldable pub feed_io_write : ℕ → BootDetect → BootDetect
feed_io_write addr s =
    let port = addr % 2 ^ 8 in
    let t = set_phase bios_entry (record s { early_ppi_writes = true }) in
    if port == 0xab || port == 0xa8 || port == 0xaa
    then (if port == 0xa8 then set_phase slot_ram_probe t else t)
    else if port == 0x99 || port == 0x98
    then set_phase vdp_init s
    else s

pub dispatch : EventKind → BusEvent → BootDetect → BootDetect
dispatch fetch e s = feed_fetch e.addr s
dispatch mem_read e s = feed_mem_read e.addr e.data_byte e.data_valid s
dispatch mem_write e s = feed_mem_write e.addr s
dispatch io_write e s = feed_io_write e.addr s
dispatch io_read e s = s

unfoldable pub feed : BootDetect → BusEvent → BootDetect
unfolding dispatch feed_fetch feed_mem_read feed_mem_write feed_io_write latch_header
feed s e = dispatch e.kind e s

-- The events of a run, in order.
unfoldable pub feed_all : BootDetect → List BusEvent → BootDetect
feed_all s [] = s
feed_all s (e ∷ es) = feed_all (feed s e) es

unfoldable pub phase_status_of : ℕ → ℤ → ℕ → PhaseStatus
phase_status_of phase_flags first_missing p =
    if bit_and phase_flags (2 ^ p % 2 ^ 16) != 0
    then phase_ok
    else if pos p ==ℤ first_missing
    then stalled
    else not_reached

unfoldable pub phase_status : BootDetect → ℕ → PhaseStatus
phase_status s p =
    if bit_and s.phase_flags (2 ^ p % 2 ^ 16) != 0
    then phase_ok
    else if pos p ==ℤ s.first_missing
    then stalled
    else not_reached
