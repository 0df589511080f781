-- ===== src/BusProbe/Levels.antt =====
-- Each line of a snapshot against the levels that were sampled on its pin.
use msx_pulse.Shared.{
  ℕ, zero, suc, ◌+◌, ◌/◌, ◌^◌, ◌≤◌, ◌<◌, ◌≡◌, refl, ap, ap₂, ◌∙◌, bit_and, bit_and-one, bit,
  bit-bit_or, bit-bit_not, bit-zero, bit_shifted, bit_not, Bool, true, false, not, ◌||◌, ◌!=◌, ltb,
  leb, if◌then◌else◌, some, List, [], ◌∷◌, length, get_or, any, all, not-any-not, not-any,
  any_either, All, sub32, arith, Bool-cases, inl, inr, add-zero,
}
use msx_pulse.BusProbe.{
  LineState, active, stuck_hi, stuck_lo, ResetStatus, running, in_reset, pulsing, driven_cart,
  Snapshot, classify_bit, pin, classify_lines, classify, reset_status, edges_to_hz, window_us,
  clk_gate_us, Round, Sampled, start, sample_round, sample_loop, sample_once,
}

pin-bit : (i mask : ℕ) → pin mask i ≡ bit i mask
pin-bit i mask = ground (arith, bit_and-one (mask / 2 ^ i), bit_shifted i mask)

classify_lines-get_or :
    (n i j hi lo : ℕ) (d : LineState)
    → j < n
    → get_or (classify_lines n i hi lo) j d ≡ classify_bit (bit (i + j) hi) (bit (i + j) lo)
unfolding classify_lines
classify_lines-get_or zero i j hi lo d h = absurd (omega arith)
classify_lines-get_or (suc n) i zero hi lo d h =
    rw add-zero (ap₂ classify_bit (pin-bit i hi) (pin-bit i lo))
classify_lines-get_or (suc n) i (suc j) hi lo d h =
    let shifted : suc i + j ≡ i + suc j = omega arith in
    classify_lines-get_or n (suc i) j hi lo d (omega arith)
    ∙ ap (λ (t : ℕ). classify_bit (bit t hi) (bit t lo)) shifted

-- The rounds that the loop makes: those before the window has passed.
abbrev pub in_window : ℕ → List Round → List Round
in_window t0 [] = []
in_window t0 (r ∷ rs) =
    let rest = in_window t0 rs in if ltb (sub32 r.now_us t0) window_us then r ∷ rest else []

abbrev pub window_ends : ℕ → List Round → Bool
window_ends t0 rs = any (λ r. leb window_us (sub32 r.now_us t0)) rs

abbrev pub IsRound : Round → Type 0
IsRound r = r.gpio_in < 2 ^ 32

-- GP `i` was sampled high, or low.
abbrev pub high_at : ℕ → Round → Bool
high_at i r = bit i r.gpio_in

abbrev pub reset_high : Round → Bool
reset_high r = bit_and r.gpio_hi_in 1 != 0

record Seen (i : ℕ) (t0 : ℕ) (st : Sampled) (rs : List Round) (out : Sampled) : Type 0 where
  hi : bit i out.seen_hi ≡ (bit i st.seen_hi || any (high_at i) (in_window t0 rs))
  lo : bit i out.seen_lo ≡ (bit i st.seen_lo || any (λ r. not (high_at i r)) (in_window t0 rs))
  r_hi : out.r_hi ≡ (st.r_hi || any reset_high (in_window t0 rs))
  r_lo : out.r_lo ≡ (st.r_lo || any (λ r. not (reset_high r)) (in_window t0 rs))

sample_round-Seen :
    (i clk_t0 : ℕ) (r : Round) (st : Sampled)
    → i < 32
    → IsRound r
    → let out = sample_round clk_t0 r st in
      (bit i out.seen_hi ≡ (bit i st.seen_hi || high_at i r))
      × (bit i out.seen_lo ≡ (bit i st.seen_lo || not (high_at i r)))
      × (out.r_hi ≡ (st.r_hi || reset_high r))
      × (out.r_lo ≡ (st.r_lo || not (reset_high r)))
unfolding sample_round
sample_round-Seen i clk_t0 r st hi fits = ground (
  arith,
  bit-bit_or i st.seen_hi r.gpio_in,
  bit-bit_or i st.seen_lo (bit_not 32 r.gpio_in),
  bit-bit_not 32 i r.gpio_in hi fits,
)

-- The loop ends if the window does.
sample_loop_ends :
    (t0 clk_t0 : ℕ) (rs : List Round) (st : Sampled)
    → window_ends t0 rs ≡ true
    → (out : Sampled) × (sample_loop t0 clk_t0 rs st ≡ some out)
unfolding sample_loop
sample_loop_ends t0 clk_t0 [] st ends = cc
sample_loop_ends t0 clk_t0 (r ∷ rs) st ends =
    elim (Bool-cases (ltb (sub32 r.now_us t0) window_us)) [
      | inl inside ↦
          let (out, run) =
            sample_loop_ends t0 clk_t0 rs (sample_round clk_t0 r st) (ground arith) in
          (out, rw inside run)
      | inr outside ↦ (st, rw outside refl)
    ]

-- It has seen exactly the rounds in the window.
sample_loop-Seen :
    (i t0 clk_t0 : ℕ) (rs : List Round) (st out : Sampled)
    → i < 32
    → All IsRound rs
    → sample_loop t0 clk_t0 rs st ≡ some out
    → Seen i t0 st rs out
unfolding sample_loop
sample_loop-Seen i t0 clk_t0 [] st out hi fits run = cc
sample_loop-Seen i t0 clk_t0 (r ∷ rs) st out hi fits run = ground (
  arith,
  sample_round-Seen i clk_t0 r st hi fits.0,
  sample_loop-Seen i t0 clk_t0 rs (sample_round clk_t0 r st) out hi fits.1,
)

-- The verdict on a line from the samples of its level: active if it took both, stuck at the one
-- that it took (low if there was no sample).
abbrev pub line_verdict : (Round → Bool) → List Round → LineState
line_verdict high rs = if any high rs then (if all high rs then stuck_hi else active) else stuck_lo

line_verdict_lem :
    (high : Round → Bool) (rs : List Round)
    → classify_bit (any high rs) (any (λ r. not (high r)) rs) ≡ line_verdict high rs
unfolding classify_bit
line_verdict_lem high rs =
    ground (arith, not-any-not high rs, any_either high rs, not-any high rs, any_none high rs)
  where
    any_none :
        (high : Round → Bool) (rs : List Round)
        → any high rs ≡ false
        → any (λ r. not (high r)) rs ≡ ltb 0 (length rs)
    any_none high rs h = ground (arith, any_either high rs)

abbrev pub reset_verdict : List Round → ResetStatus
reset_verdict rs =
    if any reset_high rs then (if all reset_high rs then running else pulsing) else in_reset

seen_verdict :
    (i t0 clk_t0 : ℕ) (rs : List Round) (out : Sampled)
    → i < 32
    → All IsRound rs
    → sample_loop t0 clk_t0 rs start ≡ some out
    → classify_bit (bit i out.seen_hi) (bit i out.seen_lo)
      ≡ line_verdict (high_at i) (in_window t0 rs)
unfolding start
seen_verdict i t0 clk_t0 rs out hi fits run =
    let seen = sample_loop-Seen i t0 clk_t0 rs start out hi fits run in
    let seen_hi : bit i out.seen_hi ≡ any (high_at i) (in_window t0 rs) =
      ground (arith, seen, bit-zero i) in
    let seen_lo : bit i out.seen_lo ≡ any (λ r. not (high_at i r)) (in_window t0 rs) =
      ground (arith, seen, bit-zero i) in
    ap₂ classify_bit seen_hi seen_lo ∙ line_verdict_lem (high_at i) (in_window t0 rs)

seen_reset :
    (t0 clk_t0 : ℕ) (rs : List Round) (out : Sampled) (driving : Bool)
    → All IsRound rs
    → sample_loop t0 clk_t0 rs start ≡ some out
    → reset_status out.r_hi out.r_lo driving
      ≡ (if driving then driven_cart else reset_verdict (in_window t0 rs))
unfolding start reset_status
seen_reset t0 clk_t0 rs out driving fits run = ground (
  arith,
  sample_loop-Seen 0 t0 clk_t0 rs start out (omega arith) fits run,
  not-any-not reset_high (in_window t0 rs),
)

-- If the window ends within the rounds given, the sampler returns, and every line of its snapshot
-- (A0 to A15 on GP0 to GP15, D0 to D7 on GP16 to GP23, the control lines from GP24 on) has the
-- verdict of the levels sampled on its pin before the window ended; /RESET has the verdict of its
-- levels, unless the cartridge drives it.
pub sample_once_lem :
    (t0 clk_t0 : ℕ) (rs : List Round) (last_counter now_ms : ℕ) (driving : Bool) (old : Snapshot)
    → All IsRound rs
    → window_ends t0 rs ≡ true
    → let seen = in_window t0 rs in
      (snap : Snapshot) × (sample_once t0 clk_t0 rs last_counter driving now_ms old ≡ some snap)
      × ((j : ℕ) → j < 16 → get_or snap.addr j active ≡ line_verdict (high_at j) seen)
      × ((j : ℕ) → j < 8 → get_or snap.data_lines j active ≡ line_verdict (high_at (16 + j)) seen)
      × ((j : ℕ) → j < 7 → get_or snap.ctrl j active ≡ line_verdict (high_at (24 + j)) seen)
      × (snap.reset ≡ (if driving then driven_cart else reset_verdict seen))
      × (snap.timestamp_ms ≡ now_ms)
unfolding sample_once classify
sample_once_lem t0 clk_t0 rs last now_ms driving old fits ends =
    let (out, run) = sample_loop_ends t0 clk_t0 rs start ends in
    let line = λ (n first j : ℕ) (hj : j < n) (room : first + n ≤ 32).
      classify_lines-get_or n first j out.seen_hi out.seen_lo active hj
      ∙ seen_verdict (first + j) t0 clk_t0 rs out (omega arith) fits run in
    (
      record (classify out.seen_hi out.seen_lo old) {
        clk_hz = edges_to_hz (if out.gate_done then out.edges else last) clk_gate_us;
        reset = reset_status out.r_hi out.r_lo driving;
        timestamp_ms = now_ms;
      },
      rw (run, sample_once) refl,
      λ j hj.
          line 16 0 j hj (omega arith)
          ∙ ap (λ (t : ℕ). line_verdict (high_at t) (in_window t0 rs)) (omega arith),
      λ j hj. line 8 16 j hj (omega arith),
      λ j hj. line 7 24 j hj (omega arith),
      seen_reset t0 clk_t0 rs out driving fits run,
      refl,
    )
