-- ===== src/MsxRuntime/Owners.antt =====
-- Which transfer a channel is left with after a pulse.
use msx_pulse.Shared.{◌≡◌, refl, false, Bool-cases, inl, inr, ℤ, ◌==ℤ◌, if◌then◌else◌, some, none}
use msx_pulse.Hardware.Trace.{last_transfer}
use msx_pulse.Alog.{log_transfer, alog_reset}
use msx_pulse.CartServe.Pipeline.{fetch_transfer, forward_transfer, reset_pipeline}
use msx_pulse.MsxRuntime.{Runtime, pulse_reset}

-- After a pulse of /RESET by msx_runtime_pulse_reset, with detection off, the last transfer that a
-- channel was given is the pipeline's forward transfer if it is the forward channel, else the fetch
-- transfer if it is the fetch channel, else the access log's if it is the log's channel, else none.
pub owners_lem :
    (r : Runtime) (ch : ℤ)
    → r.detect ≡ false
    → last_transfer ch (pulse_reset r) ≡ (
        if r.pipeline.dma_addr_fwd_ch ==ℤ ch
        then some (forward_transfer r.pipeline)
        else if r.pipeline.dma_data_fetch_ch ==ℤ ch
        then some (fetch_transfer r.pipeline)
        else if r.alog.dma_ch ==ℤ ch
        then some (log_transfer r.alog)
        else none)
unfolding last_transfer pulse_reset alog_reset reset_pipeline
owners_lem r ch passive = rw passive (elim (Bool-cases (r.pipeline.dma_addr_fwd_ch ==ℤ ch)) [
  | inl f ↦ rw f refl
  | inr f ↦ elim (Bool-cases (r.pipeline.dma_data_fetch_ch ==ℤ ch)) [
    | inl d ↦ rw (f, d) refl
    | inr d ↦ elim (Bool-cases (r.alog.dma_ch ==ℤ ch)) [
      | inl l ↦ rw (f, d, l) refl
      | inr l ↦ rw (f, d, l) refl
    ]
  ]
])
