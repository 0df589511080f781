-- ===== src/MsxRuntime/Tests.antt =====
-- The pulses with the log and the detector of a diagnostic round set up, and nothing else.
use msx_pulse.Shared.{◌≡◌, refl, [], ◌∷◌, ◌++◌, ◌==ℤ◌, if◌then◌else◌, pos, some, none}
use msx_pulse.Hardware.Trace.{last_transfer}
use msx_pulse.Alog.{log_transfer}
use msx_pulse.CartServe.Pipeline.{fetch_transfer, forward_transfer}
use msx_pulse.MsxRuntime.{Runtime, power_up, pulse_reset, pulse_reset_passive, cmd_reset}
use msx_pulse.MsxRuntime.Pulse.{Pulsed, rings, pipeline, pulse_lem}
use msx_pulse.MsxRuntime.Owners.{owners_lem}

-- The log has the first channel; the pipeline was never set up.
abbrev after_round : Runtime
after_round = record (power_up 0x20010000) {
  alog = record { pio_offset = 0; dma_ch = pos 0 };
  capture = record { mem_off = 8; io_off = 16; mem_dma = pos 1; io_dma = pos 2 };
}

pulse_example :
    Pulsed
      (pulse_reset after_round)
      100000
      (log_transfer after_round.alog ∷ pipeline after_round)
      []
    × Pulsed pulse_reset_passive 100000 [] []
    × Pulsed
        (cmd_reset after_round)
        100050
        []
        (log_transfer after_round.alog ∷ (rings after_round ++ pipeline after_round))
pulse_example = pulse_lem after_round

owners_example : last_transfer (pos 0) (pulse_reset after_round) ≡ (
    if after_round.pipeline.dma_addr_fwd_ch ==ℤ pos 0
    then some (forward_transfer after_round.pipeline)
    else if after_round.pipeline.dma_data_fetch_ch ==ℤ pos 0
    then some (fetch_transfer after_round.pipeline)
    else if after_round.alog.dma_ch ==ℤ pos 0
    then some (log_transfer after_round.alog)
    else none)
owners_example = owners_lem after_round (pos 0) refl
