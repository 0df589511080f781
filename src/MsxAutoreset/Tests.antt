-- ===== src/MsxAutoreset/Tests.antt =====
-- A power cycle.
use msx_pulse.Shared.{◌≡◌, true, false, [], ◌∷◌}
use msx_pulse.MsxAutoreset.{fire_pulse, step}
use msx_pulse.MsxAutoreset.Cycle.{after, streak, step_lem}

step_example : (step true (after (true ∷ false ∷ []))).1 ≡ fire_pulse
unfolding streak
step_example = step_lem true (true ∷ false ∷ [])
