-- ===== src/Hardware/Trace.antt =====
-- What a list of calls does to the channels and to the reset line.
use msx_pulse.Shared.{
  ℕ, ◌+◌, ◌*◌, Bool, true, false, not, ◌==◌, ℤ, ◌==ℤ◌, if◌then◌else◌, Option, none, some, List, [],
  ◌∷◌,
}
use msx_pulse.Hardware.{HwCall, gpio_put, sleep_us, sleep_ms, dma_configure, Transfer}

-- The first of two that is there.
abbrev or_else : Option Transfer → Option Transfer → Option Transfer
or_else (some t) u = some t
or_else none u = u

-- The last transfer that a channel is given.
unfoldable pub last_transfer : ℤ → List HwCall → Option Transfer
last_transfer ch [] = none
last_transfer ch (dma_configure t ∷ calls) =
    or_else (last_transfer ch calls) (if t.channel ==ℤ ch then some t else none)
last_transfer ch (_ ∷ calls) = last_transfer ch calls

-- The gate of the transistor that pulls the reset line of the MSX: high asserts it.
abbrev pub gp_reset_drv : ℕ
gp_reset_drv = 33

abbrev pub held_after : HwCall → Bool → Bool
held_after (gpio_put pin level) held = if pin == gp_reset_drv then level == 1 else held
held_after _ held = held

abbrev pub same_bool : Bool → Bool → Bool
same_bool true b = b
same_bool false b = not b

-- What a channel has written to a memory since its transfer began: `count` words.
pub record Filled : Type 0 where
  pub words : ℕ → ℕ
  pub count : ℕ

-- A channel that is given a transfer begins at the start of its memory again.
unfoldable pub filled_after : ℤ → List HwCall → Filled → Filled
filled_after ch [] m = m
filled_after ch (dma_configure t ∷ calls) m =
    filled_after ch calls (if t.channel ==ℤ ch then record m { count = 0 } else m)
filled_after ch (_ ∷ calls) m = filled_after ch calls m

-- The transfers that are set up while the reset line is as `level` says, `held` being how it is at
-- first.
unfoldable pub set_up : (level held : Bool) → List HwCall → List Transfer
set_up level held [] = []
set_up level held (dma_configure t ∷ calls) =
    let rest = set_up level held calls in if same_bool level held then t ∷ rest else rest
set_up level held (c ∷ calls) = set_up level (held_after c held) calls

abbrev us_of : HwCall → ℕ
us_of (sleep_us n) = n
us_of (sleep_ms n) = 1000 * n
us_of _ = 0

-- How long the line is asserted, in microseconds, and whether it is at the end.
unfoldable pub held_us : Bool → List HwCall → ℕ
held_us held [] = 0
held_us held (c ∷ calls) =
    let rest = held_us (held_after c held) calls in if held then us_of c + rest else rest

unfoldable pub held_at_end : Bool → List HwCall → Bool
held_at_end held [] = held
held_at_end held (c ∷ calls) = held_at_end (held_after c held) calls
