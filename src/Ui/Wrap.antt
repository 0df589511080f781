-- ===== src/Ui/Wrap.antt =====
-- `wrap_rows` of src/firmware/ui.c: the words of a text on the rows of the display.
use msx_pulse.Shared.{
  ℕ, zero, suc, ◌+◌, ◌≤◌, ◌<◌, ◌≡◌, refl, ◌&&◌, ◌||◌, ◌==◌, ltb, leb, if◌then◌else◌, min,
  Bool-cases, inl, inr, Option, none, some, List, [], ◌∷◌, ◌++◌, Text, take, length, length-append,
  length-take, length-take_le, arith, true, false, Bool,
}

abbrev pub columns : ℕ
columns = 21

abbrev pub last_row : ℕ
last_row = 7

-- The word at the start of a text, and what follows it.
unfoldable pub word_of : Text → Text
word_of [] = []
word_of (c ∷ s) = let rest = word_of s in if c == 32 || c == 10 then [] else c ∷ rest

unfoldable pub after_word : Text → Text
after_word [] = []
after_word (c ∷ s) = let rest = after_word s in if c == 32 || c == 10 then c ∷ s else rest

-- A row that is drawn, and its text.
abbrev pub Row : Type 0
Row = ℕ × Text

unfoldable pub drawn_first : Row → Option (List Row) → Option (List Row)
drawn_first r none = none
drawn_first r (some rs) = some (r ∷ rs)

-- The line with a word more.
abbrev joined : Text → Text → Text
joined line word = (if ltb 0 (length line) then line ++ (32 ∷ []) else line) ++ take columns word

-- The loop, `line` being the row under way; `none` would mean that the fuel ran out.
unfoldable pub wrap_loop : ℕ → Text → (line : Text) (row : ℕ) → Option (List Row)
unfolding word_of after_word drawn_first
wrap_loop zero w line row = none
wrap_loop (suc fuel) [] line row =
    some (if ltb 0 (length line) && leb row last_row then (row, line) ∷ [] else [])
wrap_loop (suc fuel) (c ∷ s) line row =
    let word = word_of (c ∷ s) in
    let wl = min columns (length word) in
    let broken = drawn_first (row, line) (wrap_loop fuel s [] (suc row)) in
    let skipped = wrap_loop fuel s line row in
    let moved =
      drawn_first (row, line) (wrap_loop fuel (after_word (c ∷ s)) (joined [] word) (suc row)) in
    let added = wrap_loop fuel (after_word (c ∷ s)) (joined line word) row in
    if ltb last_row row
    then some []
    else if c == 10
    then broken
    else if c == 32
    then skipped
    else if ltb 0 (length line) && ltb columns (length line + 1 + wl)
    then (if ltb last_row (suc row) then some ((row, line) ∷ []) else moved)
    else added

unfoldable pub wrap_rows : Text → (row_lo : ℕ) → Option (List Row)
unfolding wrap_loop
wrap_rows msg row_lo = wrap_loop (suc (length msg)) msg [] row_lo

-- Rows one under the other from `row` on, down to the last row at most, none too wide.
abbrev pub Rows : ℕ → List Row → Type 0
Rows row [] = Unit
Rows row ((r, line) ∷ rs) =
    (r ≡ row) × (row ≤ last_row) × (length line ≤ columns) × Rows (suc row) rs

pub record Drawn (row : ℕ) (out : Option (List Row)) : Type 0 where
  pub drawn : List Row
  pub result : out ≡ some drawn
  pub rows : Rows row drawn

after_word-shorter : (s : Text) → length (after_word s) ≤ length s
unfolding after_word
after_word-shorter [] = omega arith
after_word-shorter (c ∷ s) = ground (arith, after_word-shorter s)

drawn_first-Drawn :
    (row : ℕ) (line : Text) (out : Option (List Row))
    → row ≤ last_row
    → length line ≤ columns
    → Drawn (suc row) out
    → Drawn row (drawn_first (row, line) out)
unfolding drawn_first
drawn_first-Drawn row line out low short v = record {
  drawn = (row, line) ∷ v.drawn;
  result = rw v.result refl;
  rows = (refl, low, short, v.rows);
}

joined-short :
    (line word : Text)
    → length line ≤ columns
    → (ltb 0 (length line) && ltb columns (length line + 1 + min columns (length word))) ≡ false
    → length (joined line word) ≤ columns
joined-short line word short fits = ground (
  arith,
  length-append line (32 ∷ []),
  length-append (line ++ (32 ∷ [])) (take columns word),
  length-append line (take columns word),
  length-take columns word,
)

-- A word goes on the row under way, or on the next one if there is one.
word-Drawn :
    (full : Bool) (row : ℕ) (line : Text) (moved added : Option (List Row))
    → row ≤ last_row
    → length line ≤ columns
    → Drawn (suc row) moved
    → (full ≡ false → Drawn row added)
    → Drawn row (
        if full
        then (if ltb last_row (suc row)
            then some ((row, line) ∷ [])
            else drawn_first (row, line) moved)
        else added)
word-Drawn true row line moved added low short v w = elim (Bool-cases (ltb last_row (suc row))) [
  | inl last ↦
      rw last (record { drawn = (row, line) ∷ []; result = refl; rows = (refl, low, short, tt) })
  | inr more ↦ rw more (drawn_first-Drawn row line moved low short v)
]
word-Drawn false row line moved added low short v w = w refl

wrap_loop-Drawn :
    (fuel : ℕ) (w line : Text) (row : ℕ)
    → length w < fuel
    → length line ≤ columns
    → Drawn row (wrap_loop fuel w line row)
unfolding wrap_loop
wrap_loop-Drawn zero w line row enough short = absurd (omega arith)
wrap_loop-Drawn (suc fuel) [] line row enough short =
    elim (Bool-cases (ltb 0 (length line) && leb row last_row)) [
      | inl last ↦ rw last (record {
        drawn = (row, line) ∷ [];
        result = refl;
        rows = (refl, ground arith, short, tt);
      })
      | inr none_left ↦ rw none_left (record { drawn = []; result = refl; rows = tt })
    ]
wrap_loop-Drawn (suc fuel) (c ∷ s) line row enough short = elim (Bool-cases (ltb last_row row)) [
  | inl below ↦ rw below (record { drawn = []; result = refl; rows = tt })
  | inr inside ↦ elim (Bool-cases (c == 10)) [
    | inl newline ↦
        rw (inside, newline)
          (drawn_first-Drawn row line (wrap_loop fuel s [] (suc row)) (ground arith) short
            (wrap_loop-Drawn fuel s [] (suc row) (omega arith) (omega arith)))
    | inr no_newline ↦ elim (Bool-cases (c == 32)) [
      | inl blank ↦
          rw (inside, no_newline, blank) (wrap_loop-Drawn fuel s line row (omega arith) short)
      | inr in_word ↦
          let less : length (after_word s) < fuel = omega (arith, after_word-shorter s) in
          let word = c ∷ word_of s in
          rw (inside, no_newline, in_word)
            (word-Drawn
              (ltb 0 (length line) && ltb columns (length line + 1 + min columns (length word))) row
              line (wrap_loop fuel (after_word s) (joined [] word) (suc row))
              (wrap_loop fuel (after_word s) (joined line word) row) (ground arith) short
              (wrap_loop-Drawn fuel (after_word s) (joined [] word) (suc row) less
                (length-take_le columns word))
              (λ fits.
                wrap_loop-Drawn fuel (after_word s) (joined line word) row less
                  (joined-short line word short fits)))
    ]
  ]
]

-- Whatever the text, the loop over its words comes to an end with rows that stand one under the other
-- from the first on, down to row 7 at most, each with 21 characters at most.
pub wrap_rows_lem : (msg : Text) (row_lo : ℕ) → Drawn row_lo (wrap_rows msg row_lo)
unfolding wrap_rows
wrap_rows_lem msg row_lo =
    wrap_loop-Drawn (suc (length msg)) msg [] row_lo (omega arith) (omega arith)
