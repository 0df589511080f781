-- ===== src/Oled/Probe.antt =====
-- The probe of `oled_init` in src/firmware/oled.c.
use msx_pulse.Shared.{ℕ, zero, suc, Bool, if◌then◌else◌, Option, none, some}

-- Ten attempts with 0x3C and 0x3D; `acks i addr` is whether the display answers attempt `i`.
unfoldable pub probe_loop : (ℕ → ℕ → Bool) → (n attempt : ℕ) → Option ℕ
probe_loop acks zero attempt = none
probe_loop acks (suc n) attempt =
    let rest = probe_loop acks n (suc attempt) in
    if acks attempt 0x3c then some 0x3c else if acks attempt 0x3d then some 0x3d else rest

-- The address of the display that `oled_init` finds.
unfoldable pub oled_probe : (ℕ → ℕ → Bool) → Option ℕ
unfolding probe_loop
oled_probe acks = probe_loop acks 10 0
