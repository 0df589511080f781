-- ===== src/BootDiag/Progress.antt =====
-- Time in a round: the deadlines, and that a round ends.
use msx_pulse.Shared.{
  ℕ, ◌+◌, ◌-◌, ◌*◌, ◌^◌, ◌≤◌, ◌<◌, ◌≡◌, refl, Bool, true, false, ◌||◌, List, [], ◌∷◌, ◌⊎◌, inl, inr,
  leb, arith, add32, if◌then◌else◌,
}
use msx_pulse.BusProbe.{Snapshot}
use msx_pulse.BusIntegrity.Fields.{Read}
use msx_pulse.BootDetect.{BusEvent}
use msx_pulse.BootCapture
use msx_pulse.TxnCapture
use msx_pulse.BootDiag.{
  Phase, idle, pass_begin, capturing, settle, done, Diag, max_passes, start, tick, reached,
  is_resting, tick_pass_begin, tick_capturing, tick_settle, dispatch,
}
use msx_pulse.BootDiag.Invariant.{IsValid, feeds, tick-IsValid, start-IsValid, feeds-IsValid}

-- A deadline set `wait` milliseconds ahead is reached exactly `wait` milliseconds later, also when
-- the 32-bit clock wraps in between, if it is looked at within 2^31 ms.
pub reached_lem :
    (now wait elapsed : ℕ)
    → wait ≤ 2 ^ 31
    → elapsed < 2 ^ 31
    → reached (add32 now elapsed) (add32 now wait) ≡ leb wait elapsed
unfolding reached
reached_lem now wait elapsed w e = ground arith

-- What reaches the state machine during a round.
pub data Event : Type 0 where
  ticks : (now_ms : ℕ) (snap : Snapshot) → Event
  starts : Event
  drains : List BusEvent → List Read → BootCapture.Capture → TxnCapture.Capture → Event

unfoldable pub apply : Event → Diag → Diag
apply (ticks now_ms snap) d = (tick now_ms snap d).0
apply starts d = start d
apply (drains es rs capture txn) d = if d.capture_active then feeds es rs capture txn d else d

-- The deadline that the phase waits for, if any, is reached.
abbrev is_due_in : Phase → ℕ → Diag → Bool
is_due_in pass_begin now d = true
is_due_in capturing now d = reached now d.deadline_ms
is_due_in settle now d = reached now d.deadline_ms
is_due_in _ now d = false

unfoldable pub is_due : Event → Diag → Bool
is_due (ticks now_ms snap) d = is_due_in d.phase now_ms d
is_due _ d = false

abbrev pub is_done : Phase → Bool
is_done done = true
is_done _ = false

-- The ticks with no deadline left to wait for, among `es`.
unfoldable pub dues : List Event → Diag → ℕ
dues [] d = 0
dues (e ∷ es) d = (if is_due e d then 1 else 0) + dues es (apply e d)

-- The round comes to its end at some point of `es`.
unfoldable pub ends : List Event → Diag → Bool
ends [] d = is_done d.phase
ends (e ∷ es) d = is_done d.phase || ends es (apply e d)

abbrev pub stage : Phase → ℕ
stage pass_begin = 0
stage capturing = 1
stage settle = 2
stage _ = 0

-- How many due ticks the round can still take.
abbrev pub left : Diag → ℕ
left d = 3 * (max_passes - d.pass) - stage d.phase

abbrev pub Advances : Bool → Diag → Diag → Type 0
Advances due d e =
    (is_done e.phase ≡ true)
    ⊎ ((is_resting e.phase ≡ false)
        × (e.pass < max_passes)
        × ((if due then 1 else 0) + left e ≤ left d))

pass_begin-Advances :
    (now : ℕ) (d : Diag)
    → d.phase ≡ pass_begin
    → IsValid d
    → Advances true d (tick_pass_begin now d).0
unfolding tick_pass_begin
pass_begin-Advances now d p v = ground arith

capturing-Advances :
    (now : ℕ) (d : Diag)
    → d.phase ≡ capturing
    → IsValid d
    → Advances (reached now d.deadline_ms) d (tick_capturing now d).0
unfolding tick_capturing
capturing-Advances now d p v = ground arith

settle-Advances :
    (now : ℕ) (snap : Snapshot) (d : Diag)
    → d.phase ≡ settle
    → IsValid d
    → Advances (reached now d.deadline_ms) d (tick_settle now snap d).0
unfolding tick_settle
settle-Advances now snap d p v = ground arith

dispatch-Advances :
    (k : Phase) (now : ℕ) (snap : Snapshot) (d : Diag)
    → d.phase ≡ k
    → is_resting k ≡ false
    → IsValid d
    → Advances (is_due_in k now d) d (dispatch k now snap d).0
unfolding dispatch
dispatch-Advances pass_begin now snap d p r v = pass_begin-Advances now d p v
dispatch-Advances capturing now snap d p r v = capturing-Advances now d p v
dispatch-Advances settle now snap d p r v = settle-Advances now snap d p v
dispatch-Advances idle now snap d p r v = ground arith
dispatch-Advances done now snap d p r v = ground arith

pub apply-Advances :
    (e : Event) (d : Diag)
    → is_resting d.phase ≡ false
    → IsValid d
    → Advances (is_due e d) d (apply e d)
unfolding apply is_due tick start
apply-Advances (ticks now snap) d r v = dispatch-Advances d.phase now snap d refl r v
apply-Advances starts d r v = ground (arith, v.few_passes)
apply-Advances (drains es rs capture txn) d r v = ground (arith, v.few_passes)

pub apply-IsValid : (e : Event) (d : Diag) → IsValid d → IsValid (apply e d)
unfolding apply
apply-IsValid (ticks now snap) d v = tick-IsValid now snap d v
apply-IsValid starts d v = start-IsValid d v
apply-IsValid (drains es rs capture txn) d v = ground (arith, feeds-IsValid d es rs capture txn)

done_ends : (es : List Event) (d : Diag) → is_done d.phase ≡ true → ends es d ≡ true
unfolding ends
done_ends [] d p = p
done_ends (e ∷ es) d p = ground arith

ends_within :
    (es : List Event) (d : Diag)
    → IsValid d
    → is_resting d.phase ≡ false
    → left d ≤ dues es d
    → ends es d ≡ true
unfolding ends dues
ends_within [] d v r enough = ground (arith, v.few_passes r)
ends_within (e ∷ es) d v r enough = elim (apply-Advances e d r v) [
  | inl p ↦ ground (arith, done_ends es (apply e d) p)
  | inr (r', few, less) ↦
      ground (arith, ends_within es (apply e d) (apply-IsValid e d v) r' (omega arith))
]

-- A round ends: once it is begun, whatever Core 1 drains and however often a round is asked for, it
-- is done by the ninth tick that has no deadline to wait for (three phases in three passes).
pub round_ends_lem :
    (es : List Event) (d : Diag)
    → IsValid d
    → is_resting d.phase ≡ false
    → 9 ≤ dues es d
    → ends es d ≡ true
round_ends_lem es d v r enough = ends_within es d v r (omega arith)
