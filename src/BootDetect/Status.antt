-- ===== src/BootDetect/Status.antt =====
-- The status of a phase, as it is displayed.
use msx_pulse.Shared.{
  ℕ, ◌%◌, ◌^◌, ◌<◌, ◌≡◌, refl, ap, subst, bit, bit_and, ◌↔◌, ◌!=◌, has_bit-bit, true, List, ℤ, pos,
  negsuc, arith, two_pow_fits, ◌∙◌,
}
use msx_pulse.BootDetect.{BootDetect, BusEvent, phase_ok, stalled, reset, feed_all, phase_status}
use msx_pulse.BootDetect.Derived.{IsDerived, IsLowest, confirmed_lem}

status_flag : (flags p : ℕ) → p < 9 → (bit_and flags (2 ^ p % 2 ^ 16) != 0) ≡ bit p flags
status_flag flags p hp = rw (two_pow_fits 16 p (omega arith)) (has_bit-bit p flags)

status_at :
    (s : BootDetect) (f p : ℕ)
    → s.first_missing ≡ pos f
    → IsLowest 9 s.phase_flags (pos f)
    → p < 9
    → ((phase_status s p ≡ phase_ok) ↔ (bit p s.phase_flags ≡ true))
      × ((phase_status s p ≡ stalled) ↔ (f ≡ p))
unfolding phase_status
status_at s f p e low hp = (
  ground (arith, status_flag s.phase_flags p hp),
  ground (arith, status_flag s.phase_flags p hp, low.2, low.1 p),
)

status_of_IsDerived :
    (s : BootDetect)
    → IsDerived s
    → (p : ℕ) → p < 9
    → ((phase_status s p ≡ phase_ok) ↔ (bit p s.phase_flags ≡ true))
      × ((phase_status s p ≡ stalled) ↔ (s.first_missing ≡ pos p))
      × ((q : ℕ) → q < p → phase_status s p ≡ stalled → phase_status s q ≡ phase_ok)
status_of_IsDerived s v p hp = by_first s.first_missing refl
  where
    by_first :
        (f : ℤ)
        → s.first_missing ≡ f
        → ((phase_status s p ≡ phase_ok) ↔ (bit p s.phase_flags ≡ true))
          × ((phase_status s p ≡ stalled) ↔ (s.first_missing ≡ pos p))
          × ((q : ℕ) → q < p → phase_status s p ≡ stalled → phase_status s q ≡ phase_ok)
    by_first (negsuc m) e = absurd (subst (IsLowest 9 s.phase_flags) e v.lowest)
    by_first (pos f) e =
        let low : IsLowest 9 s.phase_flags (pos f) = subst (IsLowest 9 s.phase_flags) e v.lowest in
        let (okay, stall) = status_at s f p e low hp in
        (
          okay,
          (λ h. e ∙ ap pos (stall.0 h), λ h. stall.1 (cc)),
          λ q hq h.
              let here : f ≡ p = stall.0 h in
              (status_at s f q e low (omega arith)).0.1 (low.1 q (omega arith)),
        )

-- Whatever the events were: a phase is shown as OK exactly when its flag is set, and as stalled
-- exactly when it is `first_missing`; and where a phase is shown as stalled, every earlier phase
-- is shown as OK.
pub phase_status_lem :
    (es : List BusEvent) (p : ℕ)
    → p < 9
    → let s = feed_all reset es in
      ((phase_status s p ≡ phase_ok) ↔ (bit p s.phase_flags ≡ true))
      × ((phase_status s p ≡ stalled) ↔ (s.first_missing ≡ pos p))
      × ((q : ℕ) → q < p → phase_status s p ≡ stalled → phase_status s q ≡ phase_ok)
phase_status_lem es p hp = status_of_IsDerived (feed_all reset es) (confirmed_lem es) p hp
