-- ===== src/Report/Lines.antt =====
-- The loops of boot_diag_format_report and cmd_boot that walk through the lines of a text.
use mathlib.Core.List.{append-nil, append_assoc}
use msx_pulse.Shared.{
  ℕ, zero, suc, ◌≤◌, ◌≡◌, refl, ap, ◌∙◌, ◌==◌, Bool-cases, inl, inr, if◌then◌else◌, List, [], ◌∷◌,
  ◌++◌, Text, length, arith,
}

-- The text before the first line end, and the text after it.
unfoldable pub line_of : Text → Text
line_of [] = []
line_of (c ∷ s) = let rest = line_of s in if c == 10 then [] else c ∷ rest

unfoldable pub rest_of : Text → Text
rest_of [] = []
rest_of (c ∷ s) = let rest = rest_of s in if c == 10 then s else rest

-- `while (*p)`: the lines that the loop comes to.
unfoldable pub walk_lines : ℕ → Text → List Text
unfolding line_of rest_of
walk_lines zero p = []
walk_lines (suc fuel) [] = []
walk_lines (suc fuel) (c ∷ s) = line_of (c ∷ s) ∷ walk_lines fuel (rest_of (c ∷ s))

-- The lines of a text, read character by character; `line` is what has been read of a line.
unfoldable pub lines_after : Text → Text → List Text
lines_after [] [] = []
lines_after (d ∷ line) [] = (d ∷ line) ∷ []
lines_after line (c ∷ s) =
    let ended = lines_after [] s in
    let longer = lines_after (line ++ (c ∷ [])) s in if c == 10 then line ∷ ended else longer

pub rest_of-shorter : (c : ℕ) (s : Text) → length (rest_of (c ∷ s)) ≤ length s
unfolding rest_of
rest_of-shorter c [] = ground arith
rest_of-shorter c (d ∷ s) = ground (arith, rest_of-shorter d s)

lines_after-next :
    (d : ℕ) (line s : Text)
    → lines_after (d ∷ line) s ≡ ((d ∷ line) ++ line_of s) ∷ lines_after [] (rest_of s)
unfolding lines_after line_of rest_of
lines_after-next d line [] = rw append-nil refl
lines_after-next d line (c ∷ s) = elim (Bool-cases (c == 10)) [
  | inl ends ↦ rw (ends, append-nil) refl
  | inr goes_on ↦ rw goes_on (
      lines_after-next d (line ++ (c ∷ [])) s
      ∙ ap (λ (t : Text). (d ∷ t) ∷ lines_after [] (rest_of s))
          (append_assoc line (c ∷ []) (line_of s)))
]

first_line :
    (c : ℕ) (s : Text) → lines_after [] (c ∷ s) ≡ line_of (c ∷ s) ∷ lines_after [] (rest_of (c ∷ s))
unfolding lines_after line_of rest_of
first_line c s = elim (Bool-cases (c == 10)) [
  | inl ends ↦ rw ends refl
  | inr goes_on ↦ rw goes_on (lines_after-next c [] s)
]

-- With as much fuel as there are characters, the loop comes to every line.
pub walk_lines_lem : (fuel : ℕ) (p : Text) → length p ≤ fuel → walk_lines fuel p ≡ lines_after [] p
unfolding walk_lines lines_after
walk_lines_lem zero [] h = refl
walk_lines_lem zero (c ∷ s) h = absurd (omega arith)
walk_lines_lem (suc fuel) [] h = refl
walk_lines_lem (suc fuel) (c ∷ s) h = rw first_line (
    ap (λ (ls : List Text). line_of (c ∷ s) ∷ ls)
      (walk_lines_lem fuel (rest_of (c ∷ s)) (omega (arith, rest_of-shorter c s))))
