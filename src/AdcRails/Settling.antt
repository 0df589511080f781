-- ===== src/AdcRails/Settling.antt =====
-- Where the averages of steady readings settle.
use msx_pulse.Shared.{ℕ, zero, suc, ◌+◌, ◌*◌, ◌%◌, ◌^◌, ◌≤◌, ◌<◌, ◌≡◌, refl, arith}
use msx_pulse.AdcRails.{Adc, init, smooth, sample}

-- Three readings, one of each rail.
abbrev pub each_rail : (r5 r12 rm12 : ℕ) → Adc → Adc
each_rail r5 r12 rm12 a = sample rm12 (sample r12 (sample r5 a))

unfoldable pub steady : (n : ℕ) → (r5 r12 rm12 : ℕ) → Adc → Adc
steady zero r5 r12 rm12 a = a
steady (suc n) r5 r12 rm12 a = each_rail r5 r12 rm12 (steady n r5 r12 rm12 a)

-- What an average has come to after `n` readings from below: it stops 63 short of the reading.
record IsClimbing (n raw avg : ℕ) : Type 0 where
  short : avg + 63 ≤ raw
  far : raw ≤ n + 63 → avg + 63 ≡ raw
  up : n + 63 ≤ raw → n ≤ avg

smooth-IsClimbing :
    (n raw avg : ℕ) → raw < 2 ^ 12 → IsClimbing n raw avg → IsClimbing (suc n) raw (smooth avg raw)
unfolding smooth
smooth-IsClimbing n raw avg word v =
    let small : avg * 63 + raw < 2 ^ 32 = omega (arith, v.short) in
    let exact : (avg * 63 + raw) % 2 ^ 32 ≡ avg * 63 + raw = omega arith in
    rw exact record {
      short = omega (arith, v.short);
      far = λ h. ground (arith, v.short, v.far, v.up);
      up = λ h. omega (arith, v.short, v.up);
    }

record AreClimbing (n r5 r12 rm12 : ℕ) (a : Adc) : Type 0 where
  first : a.current_rail ≡ 0
  rail_5v : IsClimbing n r5 a.avg_5v
  rail_12v : IsClimbing n r12 a.avg_12v
  rail_m12v : IsClimbing n rm12 a.avg_m12v

each_rail-AreClimbing :
    (n r5 r12 rm12 : ℕ) (a : Adc)
    → (r5 < 2 ^ 12) × (r12 < 2 ^ 12) × (rm12 < 2 ^ 12)
    → AreClimbing n r5 r12 rm12 a
    → AreClimbing (suc n) r5 r12 rm12 (each_rail r5 r12 rm12 a)
unfolding sample
each_rail-AreClimbing n r5 r12 rm12 a (w5, w12, wm12) v = rw v.first record {
  first = refl;
  rail_5v = smooth-IsClimbing n r5 a.avg_5v w5 v.rail_5v;
  rail_12v = smooth-IsClimbing n r12 a.avg_12v w12 v.rail_12v;
  rail_m12v = smooth-IsClimbing n rm12 a.avg_m12v wm12 v.rail_m12v;
}

steady-AreClimbing :
    (n r5 r12 rm12 : ℕ)
    → (r5 < 2 ^ 12) × (r12 < 2 ^ 12) × (rm12 < 2 ^ 12)
    → (63 ≤ r5) × (63 ≤ r12) × (63 ≤ rm12)
    → AreClimbing n r5 r12 rm12 (steady n r5 r12 rm12 init)
unfolding steady init
steady-AreClimbing zero r5 r12 rm12 words (l5, l12, lm12) = record {
  first = refl;
  rail_5v = record { short = l5; far = λ h. omega arith; up = λ h. omega arith };
  rail_12v = record { short = l12; far = λ h. omega arith; up = λ h. omega arith };
  rail_m12v = record { short = lm12; far = λ h. omega arith; up = λ h. omega arith };
}
steady-AreClimbing (suc n) r5 r12 rm12 words low =
    each_rail-AreClimbing n r5 r12 rm12 (steady n r5 r12 rm12 init) words
      (steady-AreClimbing n r5 r12 rm12 words low)

-- With steady readings of 12 bits, none below 63, no average ever comes nearer than 63 to its
-- reading, however many rounds `m` of the three rails are sampled; and after as many rounds `n` as
-- the highest reading less 63, each is exactly 63 below its reading.
pub settling_lem :
    (m n r5 r12 rm12 : ℕ)
    → (r5 < 2 ^ 12) × (r12 < 2 ^ 12) × (rm12 < 2 ^ 12)
    → (63 ≤ r5) × (63 ≤ r12) × (63 ≤ rm12)
    → (r5 ≤ n + 63) × (r12 ≤ n + 63) × (rm12 ≤ n + 63)
    → let a = steady m r5 r12 rm12 init in
      let b = steady n r5 r12 rm12 init in
      ((a.avg_5v + 63 ≤ r5) × (a.avg_12v + 63 ≤ r12) × (a.avg_m12v + 63 ≤ rm12))
      × ((b.avg_5v + 63 ≡ r5) × (b.avg_12v + 63 ≡ r12) × (b.avg_m12v + 63 ≡ rm12))
settling_lem m n r5 r12 rm12 words low (e5, e12, em12) =
    let v = steady-AreClimbing m r5 r12 rm12 words low in
    let w = steady-AreClimbing n r5 r12 rm12 words low in
    (
      (v.rail_5v.short, v.rail_12v.short, v.rail_m12v.short),
      (w.rail_5v.far e5, w.rail_12v.far e12, w.rail_m12v.far em12),
    )
