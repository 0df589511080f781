-- ===== src/MsxRuntime/Pulse.antt =====
-- How the pulses hold the reset line, and what they set up meanwhile.
use msx_pulse.Shared.{
  ℕ, ◌≡◌, refl, true, false, Bool-cases, inl, inr, is_neg, if◌then◌else◌, List, [], ◌∷◌, ◌++◌,
}
use msx_pulse.Hardware.{HwCall, Transfer, bd_mem_ring, bd_io_ring}
use msx_pulse.Hardware.Trace.{set_up, held_us, held_at_end}
use msx_pulse.Alog.{log_transfer, alog_reset}
use msx_pulse.BootCapture.Arming
use msx_pulse.CartServe.Pipeline.{fetch_transfer, forward_transfer, reset_pipeline}
use msx_pulse.MsxRuntime.{Runtime, pulse_reset, pulse_reset_passive, cmd_reset}

-- The calls assert a line that was not asserted for `us` microseconds and let it go; `held` are the
-- transfers set up while it is asserted, `free` those set up while it is not.
pub record Pulsed (calls : List HwCall) (us : ℕ) (held free : List Transfer) : Type 0 where
  pub lasts : held_us false calls ≡ us
  pub ends : held_at_end false calls ≡ false
  pub set_up_held : set_up true false calls ≡ held
  pub set_up_free : set_up false false calls ≡ free

-- The transfers of the bus capture, if its channels are claimed.
abbrev pub rings : Runtime → List Transfer
rings r =
    if is_neg r.capture.mem_dma
    then []
    else Arming.ring_transfer r.capture.mem_dma bd_mem_ring 1
      ∷ Arming.ring_transfer r.capture.io_dma bd_io_ring 2
      ∷ []

abbrev pub pipeline : Runtime → List Transfer
pipeline r = fetch_transfer r.pipeline ∷ forward_transfer r.pipeline ∷ []

-- Whatever is set up, msx_runtime_pulse_reset asserts the line for 100 ms and lets it go, and while
-- it is asserted, and only then, it arms the access log, the two transfers of the pipeline, and with
-- detection on those of the bus capture, if its channels are claimed. The passive pulse asserts the
-- line for 100 ms, lets it go and arms nothing. The RESET command asserts the line for 100.05 ms and
-- lets it go; it arms the log, those of the bus capture, if its channels are claimed, and the
-- pipeline while the line is not asserted, and nothing while it is.
pub pulse_lem :
    (r : Runtime)
    → Pulsed
        (pulse_reset r)
        100000
        (log_transfer r.alog ∷ (pipeline r ++ (if r.detect then rings r else [])))
        []
      × Pulsed pulse_reset_passive 100000 [] []
      × Pulsed (cmd_reset r) 100050 [] (log_transfer r.alog ∷ (rings r ++ pipeline r))
unfolding pulse_reset pulse_reset_passive cmd_reset set_up held_us held_at_end Arming.reset_calls
    alog_reset reset_pipeline
pulse_lem r = (
  elim (Bool-cases r.detect) [
    | inl d ↦ elim (Bool-cases (is_neg r.capture.mem_dma)) [
      | inl n ↦
          rw (d, n) (record { lasts = refl; ends = refl; set_up_held = refl; set_up_free = refl })
      | inr n ↦
          rw (d, n) (record { lasts = refl; ends = refl; set_up_held = refl; set_up_free = refl })
    ]
    | inr d ↦ rw d (record { lasts = refl; ends = refl; set_up_held = refl; set_up_free = refl })
  ],
  record { lasts = refl; ends = refl; set_up_held = refl; set_up_free = refl },
  elim (Bool-cases (is_neg r.capture.mem_dma)) [
    | inl n ↦ rw n (record { lasts = refl; ends = refl; set_up_held = refl; set_up_free = refl })
    | inr n ↦ rw n (record { lasts = refl; ends = refl; set_up_held = refl; set_up_free = refl })
  ],
)
