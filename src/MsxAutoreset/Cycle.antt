-- ===== src/MsxAutoreset/Cycle.antt =====
-- What the latch does, from the polls alone.
use msx_pulse.Shared.{
  ℕ, suc, ◌≡◌, refl, Bool, true, false, List, [], ◌∷◌, ◌==◌, leb, arith, if◌then◌else◌,
}
use msx_pulse.MsxAutoreset.{nothing, fire_pulse, park, Autoreset, reset, step}

-- The state after the polls, of which the latest comes first.
unfoldable pub after : List Bool → Autoreset
after [] = reset
after (p ∷ ps) = (step p (after ps)).0

-- For how many polls up to the latest the MSX has been present.
unfoldable pub streak : List Bool → ℕ
streak [] = 0
streak (p ∷ ps) = if p then suc (streak ps) else 0

record Shows (n : ℕ) (s : Autoreset) : Type 0 where
  counted : s.present_count ≡ (if leb 2 n then 2 else n)
  latched : s.fired ≡ leb 2 n

step-Shows :
    (p : Bool) (n : ℕ) (s : Autoreset) → Shows n s → Shows (if p then suc n else 0) (step p s).0
unfolding step reset
step-Shows true n s v = ground arith
step-Shows false n s v = record { counted = refl; latched = refl }

after-Shows : (ps : List Bool) → Shows (streak ps) (after ps)
unfolding after streak reset
after-Shows [] = record { counted = refl; latched = refl }
after-Shows (p ∷ ps) = step-Shows p (streak ps) (after ps) (after-Shows ps)

action_lem :
    (p : Bool) (n : ℕ) (s : Autoreset)
    → Shows n s
    → (step p s).1
      ≡ (if p then (if n == 1 then fire_pulse else nothing) else (if n == 0 then nothing else park))
unfolding step
action_lem true n s v = ground arith
action_lem false n s v = ground arith

-- After any polls, the next one fires the pulse exactly if it is the second poll in a row at which
-- the MSX is present, parks the reset line exactly if the MSX has just gone, and does nothing
-- otherwise: one pulse in each power cycle.
pub step_lem :
    (p : Bool) (ps : List Bool)
    → (step p (after ps)).1 ≡ (
        if p
        then (if streak ps == 1 then fire_pulse else nothing)
        else (if streak ps == 0 then nothing else park))
step_lem p ps = action_lem p (streak ps) (after ps) (after-Shows ps)
