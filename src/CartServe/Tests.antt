-- ===== src/CartServe/Tests.antt =====
-- A ROM of two bytes.
use msx_pulse.Shared.{zero, ◌≡◌, some}
use msx_pulse.CartServe.{Memory, serve_init}
use msx_pulse.CartServe.Image.{serve_init_lem}

abbrev header : Memory
header zero = 0x41
header _ = 0x42

serve_init_example : serve_init (some header) 2 (λ _. 0) 0x4001 ≡ 0x42
serve_init_example = serve_init_lem header 2 (λ _. 0) 0x4001
