-- ===== src/Report/Appended.antt =====
-- What a buffer holds after some pieces: the text of the pieces in a row, cut to its size.
use mathlib.Core.List.{append-nil, append_assoc}
use msx_pulse.Shared.{
  ℕ, zero, suc, ◌-◌, ◌<◌, ◌≡◌, refl, sym, ap, ap₂, subst, ◌∙◌, Bool, true, false, ◌==◌, Bool-cases,
  inl, inr, leb, if◌then◌else◌, has_bit, ◌++◌, [], Text, take, length, length-take, take-append,
  take-all, take-nil, arith, length-append,
}
use msx_pulse.Report.{Buffer, empty, appendf, append_if, append_mask, append_each}

-- The buffer holds `whole` as far as it fits, and the offset is the length of that.
pub record Holds (buflen : ℕ) (whole : Text) (b : Buffer) : Type 0 where
  pub text : b.text ≡ take (buflen - 1) whole
  pub off : b.off ≡ length b.text

pub empty-Holds : (buflen : ℕ) → Holds buflen [] empty
unfolding empty
empty-Holds buflen = record { text = sym (take-nil (buflen - 1)); off = refl }

pub Holds-same :
    (buflen : ℕ) (s t : Text) (b : Buffer) → s ≡ t → Holds buflen s b → Holds buflen t b
Holds-same buflen s t b same v = subst (λ (u : Text). Holds buflen u b) same v

pub appendf-Holds :
    (buflen : ℕ) (whole piece : Text) (b : Buffer)
    → 0 < buflen
    → Holds buflen whole b
    → Holds buflen (whole ++ piece) (appendf buflen piece b)
unfolding appendf
appendf-Holds buflen whole piece b room v =
    let bound = ap length v.text ∙ length-take (buflen - 1) whole in
    let inside : b.off < buflen = ground (arith, v.off, bound) in
    let left : buflen - b.off - 1 ≡ buflen - 1 - length whole = ground (arith, v.off, bound) in
    let cut : take (buflen - 1) (whole ++ piece)
        ≡ take b.off b.text ++ take (buflen - b.off - 1) piece =
      take-append (buflen - 1) whole piece
      ∙ ap₂ (λ (s t : Text). s ++ t)
          (sym v.text ∙ sym (take-all b.off b.text (omega (arith, v.off))))
          (ap (λ (n : ℕ). take n piece) (sym left)) in
    rw (leb_false buflen b.off inside) record {
      text = sym cut;
      off = ground (
        arith,
        length-append (take b.off b.text) (take (buflen - b.off - 1) piece),
        length-take (buflen - b.off - 1) piece,
        take-all b.off b.text,
        v.off,
      );
    }
  where
    leb_false : (a b : ℕ) → b < a → leb a b ≡ false
    leb_false a b h = ground arith

-- A piece that is printed only under a condition.
abbrev pub given : Bool → Text → Text
given test piece = if test then piece else []

pub append_if-Holds :
    (test : Bool) (buflen : ℕ) (whole piece : Text) (b : Buffer)
    → 0 < buflen
    → Holds buflen whole b
    → Holds buflen (whole ++ given test piece) (append_if test buflen piece b)
append_if-Holds true buflen whole piece b room v = appendf-Holds buflen whole piece b room v
append_if-Holds false buflen whole piece b room v = rw append-nil v

-- The pieces of the bits that are set, from bit `i` on.
unfoldable pub mask_text : (ℕ → Text) → (n i mask : ℕ) → Text
mask_text piece zero i mask = []
mask_text piece (suc n) i mask = given (has_bit mask i) (piece i) ++ mask_text piece n (suc i) mask

pub append_mask-Holds :
    (piece : ℕ → Text) (n i mask : ℕ) (buflen : ℕ) (whole : Text) (b : Buffer)
    → 0 < buflen
    → Holds buflen whole b
    → Holds buflen (whole ++ mask_text piece n i mask) (append_mask buflen piece n i mask b)
unfolding mask_text append_mask
append_mask-Holds piece zero i mask buflen whole b room v = rw append-nil v
append_mask-Holds piece (suc n) i mask buflen whole b room v =
    rw
      (sym (append_assoc whole (given (has_bit mask i) (piece i)) (mask_text piece n (suc i) mask)))
      (append_mask-Holds piece n (suc i) mask buflen (whole ++ given (has_bit mask i) (piece i))
        (append_if (has_bit mask i) buflen (piece i) b) room
        (append_if-Holds (has_bit mask i) buflen whole (piece i) b room v))

unfoldable pub each_text : (ℕ → Text) → (n i : ℕ) → Text
each_text piece zero i = []
each_text piece (suc n) i = piece i ++ each_text piece n (suc i)

pub append_each-Holds :
    (piece : ℕ → Text) (n i : ℕ) (buflen : ℕ) (whole : Text) (b : Buffer)
    → 0 < buflen
    → Holds buflen whole b
    → Holds buflen (whole ++ each_text piece n i) (append_each buflen piece n i b)
unfolding each_text append_each
append_each-Holds piece zero i buflen whole b room v = rw append-nil v
append_each-Holds piece (suc n) i buflen whole b room v =
    rw (sym (append_assoc whole (piece i) (each_text piece n (suc i)))) (
      append_each-Holds piece n (suc i) buflen (whole ++ piece i) (appendf buflen (piece i) b) room
        (appendf-Holds buflen whole (piece i) b room v))

-- In a buffer with no room for a character, every text is the empty one.
cut_all-Holds : (s t : Text) (b : Buffer) → Holds 1 s b → Holds 1 t b
unfolding take
cut_all-Holds s t b v = record { text = v.text; off = v.off }

-- A second text that is printed if the first left nothing.
pub otherwise-Holds :
    (found : Bool) (buflen : ℕ) (whole piece : Text) (b : Buffer)
    → 0 < buflen
    → (found ≡ true → 0 < length whole)
    → (found ≡ false → whole ≡ [])
    → Holds buflen whole b
    → Holds buflen
        (if found then whole else piece)
        (if b.off == 0 then appendf buflen piece b else b)
otherwise-Holds true buflen whole piece b room some none v = elim (Bool-cases (b.off == 0)) [
  | inl nothing ↦
      let one : buflen ≡ 1 =
        ground (arith, v.off, ap length v.text, length-take (buflen - 1) whole, some refl) in
      rw (nothing, one)
        (cut_all-Holds (whole ++ piece) whole _
          (appendf-Holds 1 whole piece b (omega arith) (rw one at v)))
  | inr something ↦ rw something v
]
otherwise-Holds false buflen whole piece b room some none v =
    let begun : Holds buflen [] b = rw (none refl) at v in
    let nothing : (b.off == 0) ≡ true =
      ground
        (arith, v.off, ap length v.text, length-take (buflen - 1) whole, ap length (none refl)) in
    rw nothing (appendf-Holds buflen [] piece b room begun)
