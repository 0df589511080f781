-- ===== src/Shared/WellFounded.antt =====
-- Recursion on a number that falls.
use Prim.Native.Nat.{ℕ, zero, suc, ◌/◌, ◌<◌}
use mathlib.Core.WellFounded.{Acc, WellFounded}
use native.Mathlib.Omega.{arith}

Acc_under : (bound n : ℕ) → n < bound → Acc ◌<◌ n
Acc_under zero n h = elim h [ ]
Acc_under (suc bound) n h = Acc.intro n (λ m below. Acc_under bound m (omega arith))

unfoldable pub lt_wf : WellFounded ◌<◌
unfolding Acc_under
lt_wf = record { apply = λ n. Acc_under (suc n) n (omega arith) }

pub half-lt : (v : ℕ) → 0 < v → v / 2 < v
half-lt v h = omega arith
