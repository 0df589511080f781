-- ===== src/BootDetect/Tests.antt =====
-- The detector on the first events of a boot.
use msx_pulse.Shared.{ℕ, ◌≡◌, refl, bit, true, List, [], ◌∷◌, any, pos, negsuc}
use msx_pulse.BootDetect.{
  BusEvent, EventKind, fetch, mem_read, mem_write, io_read, io_write, reset, feed, feed_all,
  set_phase,
}
use msx_pulse.BootDetect.Derived.{IsDerived, confirmed_lem}
use msx_pulse.BootDetect.Evidence.{shows, phase_flags_lem}
use msx_pulse.BootDetect.Latches.{last_header, saw_ab, writes_ppi, writes_workarea, latches_lem}

abbrev event : EventKind → ℕ → ℕ → BusEvent
event kind addr data_byte = record {
  kind = kind;
  addr = addr;
  data_byte = data_byte;
  data_valid = true;
}

-- The reset vector, a PPI write, a RAM write, and the reads of a cartridge's header.
abbrev boot : List BusEvent
boot =
    event fetch 0 0xf3
    ∷ event io_write 0x01ab 0x82
    ∷ event mem_write 0xffff 0
    ∷ event mem_read 0x4000 0x41
    ∷ event mem_read 0x4001 0x42
    ∷ event io_read 0x99 0
    ∷ []

boot_verdict :
    let s = feed_all reset boot in
    (s.phase_flags ≡ 0x107)
    × (s.last_confirmed ≡ pos 8)
    × (s.first_missing ≡ pos 3)
    × (s.header_read ≡ true)
    × (s.early_ppi_writes ≡ true)
    × (reset.last_confirmed ≡ negsuc 0)
unfolding feed_all reset feed set_phase
boot_verdict = (refl, refl, refl, refl, refl, refl)

confirmed_example : IsDerived (feed_all reset boot)
confirmed_example = confirmed_lem boot

phase_flags_example : bit 2 (feed_all reset boot).phase_flags ≡ any (shows 2) boot
phase_flags_example = phase_flags_lem 2 boot

latches_example :
    let s = feed_all reset boot in
    (s.header_4000 ≡ last_header 0x4000 0xff boot)
    × (s.header_4001 ≡ last_header 0x4001 0xff boot)
    × (s.header_read ≡ saw_ab 0xff 0xff boot)
    × (s.early_ppi_writes ≡ any writes_ppi boot)
    × (s.basic_workarea_init ≡ any writes_workarea boot)
latches_example = latches_lem boot
