-- ===== src/MsxRuntime.antt =====
-- src/firmware/msx_runtime.h and msx_runtime.c, with `cmd_reset` of cmd_dispatch.c: the set-up of the
-- bus, and the two pulses of the reset line that re-arm the logs.
pub mod Owners
pub mod Pulse
mod Tests
use msx_pulse.Shared.{ℕ, zero, suc, Bool, true, false, if◌then◌else◌, ℤ, List, [], ◌∷◌, ◌++◌}
use msx_pulse.Hardware.{
  HwCall, sio, for_pins, gpio_init, gpio_put, gpio_set_dir, gpio_set_function, gpio_disable_pulls,
  sleep_us, sleep_ms,
}
use msx_pulse.Hardware.Trace.{gp_reset_drv}
use msx_pulse.Alog
use msx_pulse.Alog.{Alog, alog_reset, alog_init}
use msx_pulse.BootCapture.Arming
use msx_pulse.CartServe.Pipeline
use msx_pulse.CartServe.Pipeline.{
  Pipeline, bus_buffers_enable, reset_pipeline, pipeline_init, gp_lvc_dir,
}

abbrev pub gp_reset : ℕ
gp_reset = 32

-- The statics of the modules that a pulse re-arms; `detect` is `s_detect`.
pub record Runtime : Type 0 where
  pub detect : Bool
  pub alog : Alog
  pub capture : Arming.Arming
  pub pipeline : Pipeline

-- At power-up, and for as long as neither serving nor a diagnostic round has been set up.
abbrev pub power_up : ℕ → Runtime
power_up lut_base = record {
  detect = false;
  alog = Alog.unclaimed;
  capture = Arming.unclaimed;
  pipeline = Pipeline.untouched lut_base;
}

abbrev reset_pins : List HwCall
reset_pins =
    gpio_init gp_reset_drv
    ∷ gpio_put gp_reset_drv 0
    ∷ gpio_set_dir gp_reset_drv true
    ∷ gpio_init gp_reset
    ∷ gpio_set_dir gp_reset false
    ∷ []

abbrev to_sio : ℕ → HwCall
to_sio pin = gpio_set_function pin sio

-- `msx_runtime_passive_init`
unfoldable pub passive_init : List HwCall
unfolding bus_buffers_enable for_pins
passive_init =
    reset_pins
    ++ (for_pins to_sio 16 0
        ++ (for_pins to_sio 8 16
            ++ (for_pins to_sio 7 24
                ++ (for_pins gpio_disable_pulls 16 0
                    ++ (for_pins gpio_disable_pulls 8 16
                        ++ (for_pins gpio_disable_pulls 7 24
                            ++ (gpio_disable_pulls gp_reset
                                ∷ gpio_disable_pulls gp_lvc_dir
                                ∷ gpio_init gp_lvc_dir
                                ∷ gpio_put gp_lvc_dir 1
                                ∷ gpio_set_dir gp_lvc_dir true
                                ∷ bus_buffers_enable)))))))

-- What the SDK returns for programs and channels, in the order of the calls.
pub record Claims : Type 0 where
  pub addr_offset : ℕ
  pub read_offset : ℕ
  pub fwd : ℤ
  pub fetch : ℤ
  pub log_offset : ℕ
  pub log_ch : ℤ
  pub mem_offset : ℕ
  pub io_offset : ℕ
  pub mem_ch : ℤ
  pub io_ch : ℤ

-- `msx_runtime_serve_detect_init`, less the copy of the ROM and the reset of the detector's state.
unfoldable pub serve_detect_init : Claims → (with_detect : Bool) → Runtime → Runtime × List HwCall
unfolding bus_buffers_enable for_pins pipeline_init alog_init Arming.init_calls Pipeline.arm
serve_detect_init k with_detect r =
    let served = pipeline_init k.addr_offset k.read_offset k.fwd k.fetch r.pipeline in
    let logged = alog_init k.log_offset k.log_ch in
    let armed = Arming.init_calls k.mem_offset k.io_offset k.mem_ch k.io_ch in
    (
      record {
        detect = with_detect;
        alog = logged.0;
        capture = if with_detect then armed.0 else r.capture;
        pipeline = served.0;
      },
      served.1
          ++ (reset_pins
              ++ (for_pins to_sio 16 0
                  ++ (for_pins to_sio 6 24
                      ++ (to_sio 31
                          ∷ (for_pins gpio_disable_pulls 16 0
                              ++ (for_pins gpio_disable_pulls 8 24
                                  ++ (gpio_disable_pulls gp_lvc_dir
                                      ∷ gpio_disable_pulls gp_reset
                                      ∷ (bus_buffers_enable
                                          ++ (Pipeline.arm
                                              ++ (logged.1
                                                  ++ (if with_detect
                                                      then armed.1
                                                      else []))))))))))),
    )

-- `msx_runtime_pulse_reset`
unfoldable pub pulse_reset : Runtime → List HwCall
unfolding alog_reset reset_pipeline Arming.reset_calls
pulse_reset r =
    gpio_put gp_reset_drv 1
    ∷ sleep_ms 1
    ∷ (alog_reset r.alog
        ++ (reset_pipeline r.pipeline
            ++ ((if r.detect then Arming.reset_calls r.capture else [])
                ++ (sleep_ms 99 ∷ gpio_put gp_reset_drv 0 ∷ []))))

-- `msx_runtime_hold_reset`
unfoldable pub hold_reset : List HwCall
hold_reset = gpio_put gp_reset_drv 1 ∷ []

-- `msx_runtime_pulse_reset_passive`
unfoldable pub pulse_reset_passive : List HwCall
pulse_reset_passive = gpio_put gp_reset_drv 1 ∷ sleep_ms 100 ∷ gpio_put gp_reset_drv 0 ∷ []

-- The calls of `cmd_reset` that act on the hardware; its four readings of the line and of the log
-- come between them.
unfoldable pub cmd_reset : Runtime → List HwCall
unfolding alog_reset reset_pipeline Arming.reset_calls
cmd_reset r =
    alog_reset r.alog
    ++ (Arming.reset_calls r.capture
        ++ (reset_pipeline r.pipeline
            ++ (gpio_put gp_reset_drv 1
                ∷ sleep_us 50
                ∷ sleep_ms 50
                ∷ sleep_ms 50
                ∷ gpio_put gp_reset_drv 0
                ∷ sleep_us 50
                ∷ [])))
