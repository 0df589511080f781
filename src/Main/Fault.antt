-- ===== src/Main/Fault.antt =====
-- The power fault that the menu shows, from the rail updates alone.
use msx_pulse.Shared.{
  ℕ, suc, ◌+◌, ◌≡◌, refl, Bool, true, false, List, [], ◌∷◌, ltb, leb, arith, if◌then◌else◌,
}
use msx_pulse.Ui.{Ui, init, notify_power_fault}
use msx_pulse.Main.{Rails, is_faulty, fault_debounce, poll_rails}

-- The count and the menu after some updates, the latest first.
unfoldable pub after : Ui → List Rails → ℕ × Ui
after u [] = (0, init u)
after u (r ∷ rs) = poll_rails r (after u rs)

-- How many of the latest updates in a row were faulty.
unfoldable pub faulty_run : List Rails → ℕ
faulty_run [] = 0
faulty_run (r ∷ rs) = if is_faulty r then suc (faulty_run rs) else 0

record Shows (n : ℕ) (s : ℕ × Ui) : Type 0 where
  counted : s.0 ≡ (if leb fault_debounce n then fault_debounce else n)
  shown : s.1.power_fault ≡ leb fault_debounce n

poll_rails-Shows :
    (r : Rails) (n : ℕ) (s : ℕ × Ui)
    → Shows n s
    → Shows (if is_faulty r then suc n else 0) (poll_rails r s)
unfolding poll_rails notify_power_fault
poll_rails-Shows r n s v = by_fault (is_faulty r)
  where
    by_fault :
        (faulty : Bool)
        → let count = if ltb s.0 fault_debounce then s.0 + 1 else s.0 in
          Shows (if faulty then suc n else 0) (
            if faulty
            then (count, if leb fault_debounce count then notify_power_fault true s.1 else s.1)
            else (0, notify_power_fault false s.1))
    by_fault true = ground arith
    by_fault false = record { counted = refl; shown = refl }

after-Shows : (u : Ui) (rs : List Rails) → Shows (faulty_run rs) (after u rs)
unfolding after faulty_run init
after-Shows u [] = record { counted = refl; shown = refl }
after-Shows u (r ∷ rs) = poll_rails-Shows r (faulty_run rs) (after u rs) (after-Shows u rs)

-- After the start and any rail updates, the menu shows a power fault exactly if each of the last
-- four updates found the MSX powered and a rail failing.
pub power_fault_lem :
    (u : Ui) (rs : List Rails) → (after u rs).1.power_fault ≡ leb 4 (faulty_run rs)
power_fault_lem u rs = (after-Shows u rs).shown
