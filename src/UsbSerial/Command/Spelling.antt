-- ===== src/UsbSerial/Command/Spelling.antt =====
-- What the parser does not look at: the case of letters, and line ends after the command.
use msx_pulse.Shared.{
  ℕ, zero, suc, ◌<◌, ◌≡◌, refl, ap, ap₂, true, [], ◌∷◌, ◌++◌, map, length, arith,
}
use msx_pulse.UsbSerial.Ring.{Line}
use msx_pulse.UsbSerial.Command.{
  tolower, str_tolower, is_blank, is_trailing, skip, trim_end, parse_cmd,
}

tolower-tolower : (c : ℕ) → tolower (tolower c) ≡ tolower c
tolower-tolower c = ground arith

str_tolower-lower : (n : ℕ) (s : Line) → str_tolower n (map tolower s) ≡ str_tolower n s
unfolding str_tolower
str_tolower-lower zero s = refl
str_tolower-lower (suc n) [] = refl
str_tolower-lower (suc n) (c ∷ s) =
    ap₂ (λ (d : ℕ) (t : Line). d ∷ t) (tolower-tolower c) (str_tolower-lower n s)

-- A character at the end of a line that fits the buffer.
str_tolower-append :
    (n c : ℕ) (s : Line)
    → length s < n
    → str_tolower n (s ++ (c ∷ [])) ≡ str_tolower n s ++ (tolower c ∷ [])
unfolding str_tolower
str_tolower-append zero c s fits = absurd (omega arith)
str_tolower-append (suc zero) c [] fits = refl
str_tolower-append (suc (suc n)) c [] fits = refl
str_tolower-append (suc n) c (d ∷ s) fits =
    ap (λ (t : Line). tolower d ∷ t) (str_tolower-append n c s (omega arith))

trim_end-append : (c : ℕ) (s : Line) → is_trailing c ≡ true → trim_end (s ++ (c ∷ [])) ≡ trim_end s
unfolding trim_end
trim_end-append c [] trailing = rw trailing refl
trim_end-append c (d ∷ s) trailing = rw (trim_end-append c s trailing) refl

trim_end-single : (c : ℕ) → is_trailing c ≡ true → trim_end (c ∷ []) ≡ trim_end []
unfolding trim_end
trim_end-single c trailing = rw trailing refl

-- Leading blanks may reach the end that is put after the line.
trim_end-skip-append :
    (c : ℕ) (s : Line)
    → is_trailing c ≡ true
    → trim_end (skip is_blank (s ++ (c ∷ []))) ≡ trim_end (skip is_blank s)
unfolding skip
trim_end-skip-append c [] trailing = ground (arith, trim_end-single c trailing)
trim_end-skip-append c (d ∷ s) trailing =
    ground (arith, trim_end-skip-append c s trailing, trim_end-append c (d ∷ s) trailing)

tolower-trailing : (c : ℕ) → is_trailing c ≡ true → is_trailing (tolower c) ≡ true
tolower-trailing c trailing = ground arith

-- The command that a line shorter than the parser's buffer stands for depends neither on the case of
-- its letters nor on a line feed, a carriage return or a space at its end.
pub parse_cmd_lem :
    (line : Line) (c : ℕ)
    → length line < 63
    → is_trailing c ≡ true
    → (parse_cmd (map tolower line) ≡ parse_cmd line)
      × (parse_cmd (line ++ (c ∷ [])) ≡ parse_cmd line)
unfolding parse_cmd
parse_cmd_lem line c fits trailing = (
  rw (str_tolower-lower 63 line) refl,
  rw
      (
        str_tolower-append 63 c line fits,
        trim_end-skip-append (tolower c) (str_tolower 63 line) (tolower-trailing c trailing),
      )
      refl,
)
