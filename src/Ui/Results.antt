-- ===== src/Ui/Results.antt =====
-- A round that a button has begun ends in its results on the display: BootDiag and Ui together.
use msx_pulse.Shared.{
  ℕ, ◌+◌, ◌≤◌, ◌≡◌, refl, Bool, true, false, ◌||◌, List, [], ◌∷◌, ◌++◌, inl, inr, if◌then◌else◌,
  arith, ap, ◌∙◌,
}
use msx_pulse.BusProbe.{Snapshot}
use msx_pulse.BusIntegrity.Fields.{Read}
use msx_pulse.BootDetect.{BusEvent}
use msx_pulse.BootCapture
use msx_pulse.TxnCapture
use msx_pulse.BootDiag.{Phase, idle, pass_begin, capturing, settle, done, Diag, start, is_resting}
use msx_pulse.BootDiag.Invariant.{IsValid, is_capturing}
use msx_pulse.BootDiag.Progress
use msx_pulse.BootDiag.Progress.{
  Event, apply, is_due, left, Advances, apply-Advances, apply-IsValid, is_done,
}
use msx_pulse.BootDiag.Running.{tick-done, tick-request}
use msx_pulse.Ui.{
  BtnEvent, btn_none, btn_up, btn_down, btn_select, DiagView, progress, results, Ui, handle_btn,
  render,
}

-- What the loop of Core 0 and Core 1 do while a round is shown, less the BOOT command.
pub data Happening : Type 0 where
  ticks : (now_ms : ℕ) (snap : Snapshot) → Happening
  drains : List BusEvent → List Read → BootCapture.Capture → TxnCapture.Capture → Happening
  button : BtnEvent → Happening
  refresh : Happening

unfoldable pub happen : Happening → Diag × Ui → Diag × Ui
happen (ticks now snap) (d, u) = (apply (Progress.ticks now snap) d, u)
happen (drains es rs capture txn) (d, u) = (apply (Progress.drains es rs capture txn) d, u)
happen (button e) (d, u) =
    let handled = handle_btn e u in (if handled.1 then start d else d, handled.0)
happen refresh (d, u) = (d, render d.phase u)

unfoldable pub due : Happening → Diag → Bool
due (ticks now snap) d = is_due (Progress.ticks now snap) d
due _ d = false

-- The ticks with no deadline left to wait for.
unfoldable pub dues : List Happening → Diag × Ui → ℕ
dues [] s = 0
dues (h ∷ hs) s = (if due h s.0 then 1 else 0) + dues hs (happen h s)

abbrev is_results : DiagView → Bool
is_results results = true
is_results _ = false

-- The results are shown at some point.
unfoldable pub shown : List Happening → Diag × Ui → Bool
shown [] s = is_results s.1.diag_view
shown (h ∷ hs) s = is_results s.1.diag_view || shown hs (happen h s)

results-shown : (hs : List Happening) (s : Diag × Ui) → s.1.diag_view ≡ results → shown hs s ≡ true
unfolding shown
results-shown [] s p = ap is_results p
results-shown (h ∷ hs) s p = rw p refl

later-shown :
    (h : Happening) (hs : List Happening) (s : Diag × Ui)
    → shown hs (happen h s) ≡ true
    → shown (h ∷ hs) s ≡ true
unfolding shown
later-shown h hs s p = ground arith

-- Buttons do nothing while the progress is shown.
handle_btn-progress : (e : BtnEvent) (u : Ui) → u.diag_view ≡ progress → handle_btn e u ≡ (u, false)
unfolding handle_btn
handle_btn-progress btn_none u p = refl
handle_btn-progress btn_up u p = rw p refl
handle_btn-progress btn_down u p = rw p refl
handle_btn-progress btn_select u p = rw p refl

apply-done :
    (now : ℕ) (snap : Snapshot) (d : Diag)
    → d.phase ≡ done
    → d.request ≡ false
    → apply (Progress.ticks now snap) d ≡ d
unfolding apply
apply-done now snap d p r = tick-done now snap d p r

drain-still :
    (es : List BusEvent) (rs : List Read) (capture : BootCapture.Capture) (txn : TxnCapture.Capture)
    (d : Diag)
    → d.capture_active ≡ false
    → apply (Progress.drains es rs capture txn) d ≡ d
unfolding apply
drain-still es rs capture txn d c = rw c refl

render-done : (u : Ui) → u.diag_view ≡ progress → (render done u).diag_view ≡ results
unfolding render
render-done u p = rw p refl

-- A round that is done, with no other asked for.
record IsOver (s : Diag × Ui) : Type 0 where
  over : s.0.phase ≡ done
  quiet : s.0.request ≡ false
  still : s.0.capture_active ≡ false
  shows : s.1.diag_view ≡ progress

over-shown :
    (hs : List Happening) (s : Diag × Ui) → IsOver s → shown (hs ++ (refresh ∷ [])) s ≡ true
unfolding happen
over-shown [] (d, u) v =
    later-shown refresh [] (d, u) (results-shown [] _ (rw v.over (render-done u v.shows)))
over-shown (ticks now snap ∷ hs) (d, u) v =
    later-shown (ticks now snap) (hs ++ (refresh ∷ [])) (d, u)
      (rw (apply-done now snap d v.over v.quiet) (over-shown hs (d, u) v))
over-shown (drains es rs capture txn ∷ hs) (d, u) v =
    later-shown (drains es rs capture txn) (hs ++ (refresh ∷ [])) (d, u)
      (rw (drain-still es rs capture txn d v.still) (over-shown hs (d, u) v))
over-shown (button e ∷ hs) (d, u) v =
    later-shown (button e) (hs ++ (refresh ∷ [])) (d, u)
      (rw (handle_btn-progress e u v.shows) (over-shown hs (d, u) v))
over-shown (refresh ∷ hs) (d, u) v =
    later-shown refresh (hs ++ (refresh ∷ [])) (d, u)
      (results-shown (hs ++ (refresh ∷ [])) _ (rw v.over (render-done u v.shows)))

-- A round that runs, with no other asked for.
record IsUnderWay (s : Diag × Ui) : Type 0 where
  pub valid : IsValid s.0
  pub running : is_resting s.0.phase ≡ false
  pub quiet : s.0.request ≡ false
  pub shows : s.1.diag_view ≡ progress

is_done-done : (k : Phase) → is_done k ≡ true → k ≡ done
is_done-done done p = refl
is_done-done idle p = absurd (ground arith)
is_done-done pass_begin p = absurd (ground arith)
is_done-done capturing p = absurd (ground arith)
is_done-done settle p = absurd (ground arith)

ticked_quiet :
    (now : ℕ) (snap : Snapshot) (d : Diag)
    → is_resting d.phase ≡ false
    → d.request ≡ false
    → (apply (Progress.ticks now snap) d).request ≡ false
unfolding apply
ticked_quiet now snap d r q = tick-request now snap d r ∙ q

-- A drain moves neither the phase nor the pass nor the request.
drained-same :
    (es : List BusEvent) (rs : List Read) (capture : BootCapture.Capture) (txn : TxnCapture.Capture)
    (d : Diag)
    → let e = apply (Progress.drains es rs capture txn) d in
      (e.phase ≡ d.phase) × (e.request ≡ d.request) × (e.pass ≡ d.pass)
unfolding apply
drained-same es rs capture txn d = ground arith

render-running : (k : Phase) (u : Ui) → is_resting k ≡ false → render k u ≡ u
unfolding render
render-running k u r = ground arith

-- What is left after a tick is covered by the ticks that follow.
spend :
    (due : Bool) (before after rest : ℕ)
    → (if due then 1 else 0) + after ≤ before
    → before ≤ (if due then 1 else 0) + rest
    → after ≤ rest
spend true before after rest less enough = omega arith
spend false before after rest less enough = omega arith

left-same : (d e : Diag) → e.phase ≡ d.phase → e.pass ≡ d.pass → left e ≡ left d
left-same d e p n = cc

under_way-shown :
    (hs : List Happening) (s : Diag × Ui)
    → IsUnderWay s
    → left s.0 ≤ dues hs s
    → shown (hs ++ (refresh ∷ [])) s ≡ true
unfolding dues happen due
under_way-shown [] (d, u) v enough = ground (arith, v.valid.few_passes v.running)
under_way-shown (ticks now snap ∷ hs) (d, u) v enough =
    let e = Progress.ticks now snap in
    let next = apply-IsValid e d v.valid in
    let quiet = ticked_quiet now snap d v.running v.quiet in
    later-shown (ticks now snap) (hs ++ (refresh ∷ [])) (d, u)
      (elim (apply-Advances e d v.running v.valid) [
        | inl over ↦
            over-shown hs (apply e d, u)
              (record {
                over = is_done-done (apply e d).phase over;
                quiet = quiet;
                still = next.draining ∙ ap is_capturing (is_done-done (apply e d).phase over);
                shows = v.shows;
              })
        | inr (running, few, less) ↦
            under_way-shown hs (apply e d, u)
              (record { valid = next; running = running; quiet = quiet; shows = v.shows })
              (spend (is_due e d) (left d) (left (apply e d)) (dues hs (apply e d, u)) less enough)
      ])
under_way-shown (drains es rs capture txn ∷ hs) (d, u) v enough =
    let e = Progress.drains es rs capture txn in
    let same = drained-same es rs capture txn d in
    later-shown (drains es rs capture txn) (hs ++ (refresh ∷ [])) (d, u)
      (under_way-shown hs (apply e d, u)
        (record {
          valid = apply-IsValid e d v.valid;
          running = ap is_resting same.0 ∙ v.running;
          quiet = same.1 ∙ v.quiet;
          shows = v.shows;
        })
        (spend false (left d) (left (apply e d)) (dues hs (apply e d, u))
          (omega (arith, left-same d (apply e d) same.0 same.2)) enough))
under_way-shown (button e ∷ hs) (d, u) v enough =
    later-shown (button e) (hs ++ (refresh ∷ [])) (d, u)
      (rw (handle_btn-progress e u v.shows) (
        under_way-shown hs (d, u) v
          (omega (arith, rw (handle_btn-progress e u v.shows) at enough))))
under_way-shown (refresh ∷ hs) (d, u) v enough =
    later-shown refresh (hs ++ (refresh ∷ [])) (d, u)
      (rw (render-running d.phase u v.running) (
        under_way-shown hs (d, u) v
          (omega (arith, rw (render-running d.phase u v.running) at enough))))

-- A round that runs while its progress is shown comes to be shown as results, if no BOOT command
-- comes: however ticks, drains of Core 1, buttons and refreshes follow each other, a refresh after
-- nine ticks with no deadline left to wait for comes with the results already shown, or shows them.
pub results_lem :
    (hs : List Happening) (d : Diag) (u : Ui)
    → IsValid d
    → is_resting d.phase ≡ false
    → d.request ≡ false
    → u.diag_view ≡ progress
    → 9 ≤ dues hs (d, u)
    → shown (hs ++ (refresh ∷ [])) (d, u) ≡ true
results_lem hs d u valid running quiet shows enough =
    under_way-shown hs (d, u)
      (record { valid = valid; running = running; quiet = quiet; shows = shows }) (omega arith)
