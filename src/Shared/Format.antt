-- ===== src/Shared/Format.antt =====
-- Texts as lists of characters, and the conversions of printf that the program uses.
use Prim.Native.Nat.{ℕ, zero, suc, ◌+◌, ◌-◌, ◌/◌, ◌%◌, ◌≤◌}
use Prim.Native.Char.{code}
use Prim.Native.String.{String}
use mathlib.Core.Path.{◌≡◌, refl, ap}
use mathlib.Core.List.{List, [], ◌∷◌, ◌++◌}
use native.Mathlib.Omega.{arith}
use msx_pulse.Shared.Tests.{if◌then◌else◌, ltb}
use msx_pulse.Shared.Lists.{length, length-append}

abbrev pub Text : Type 0
Text = List ℕ

-- The characters of a literal.
unfoldable pub codes : String → Text
codes String.[] = []
codes (String.◌∷◌ c s) = code c ∷ codes s

unfoldable pub take : ℕ → Text → Text
take zero s = []
take (suc n) [] = []
take (suc n) (c ∷ s) = c ∷ take n s

-- `%u` of a number with at most `fuel` digits.
unfoldable pub decimal_within : ℕ → ℕ → Text
decimal_within zero n = []
decimal_within (suc fuel) n =
    let front = decimal_within fuel (n / 10) in
    if ltb n 10 then (48 + n) ∷ [] else front ++ ((48 + n % 10) ∷ [])

-- `%u` of a word of 32 bits, which has at most ten digits.
unfoldable pub decimal : ℕ → Text
unfolding decimal_within
decimal n = decimal_within 10 n

abbrev hex_digit : ℕ → ℕ
hex_digit d = if ltb d 10 then 48 + d else 55 + d

-- `%0wX` of a number with at most `w` hexadecimal digits.
unfoldable pub hex : ℕ → ℕ → Text
hex zero n = []
hex (suc w) n = hex w (n / 16) ++ (hex_digit (n % 16) ∷ [])

unfoldable pub spaces : ℕ → Text
spaces zero = []
spaces (suc n) = 32 ∷ spaces n

-- `%-ws` and `%wu`
abbrev pub pad_right : ℕ → Text → Text
pad_right w s = s ++ spaces (w - length s)

abbrev pub pad_left : ℕ → Text → Text
pad_left w s = spaces (w - length s) ++ s

-- A text with at most `size - 1` characters of what is printed, for a buffer of `size` bytes.
abbrev pub snprintf : ℕ → Text → Text
snprintf size s = take (size - 1) s

pub length-take_le : (n : ℕ) (s : Text) → length (take n s) ≤ n
unfolding take
length-take_le zero s = omega arith
length-take_le (suc n) [] = omega arith
length-take_le (suc n) (c ∷ s) = omega (arith, length-take_le n s)

pub length-take :
    (n : ℕ) (s : Text) → length (take n s) ≡ (if ltb n (length s) then n else length s)
unfolding take
length-take zero [] = refl
length-take zero (c ∷ s) = ground arith
length-take (suc n) [] = ground arith
length-take (suc n) (c ∷ s) = ground (arith, length-take n s)

pub take-all : (n : ℕ) (s : Text) → length s ≤ n → take n s ≡ s
unfolding take
take-all zero [] h = refl
take-all zero (c ∷ s) h = absurd (omega arith)
take-all (suc n) [] h = refl
take-all (suc n) (c ∷ s) h = cc (take-all n s (omega arith))

-- What is cut of two texts in a row: the second gets the room that the first leaves.
pub take-append : (n : ℕ) (s t : Text) → take n (s ++ t) ≡ take n s ++ take (n - length s) t
unfolding take
take-append zero [] t = refl
take-append zero (c ∷ s) t =
    let none_left : 0 - suc (length s) ≡ 0 = omega arith in rw none_left refl
take-append (suc n) [] t = let all_left : suc n - 0 ≡ suc n = omega arith in rw all_left refl
take-append (suc n) (c ∷ s) t =
    let fewer : suc n - suc (length s) ≡ n - length s = omega arith in
    rw fewer (ap (λ (r : Text). c ∷ r) (take-append n s t))

pub take-nil : (n : ℕ) → take n [] ≡ []
unfolding take
take-nil zero = refl
take-nil (suc n) = refl

pub take-take_le : (m n : ℕ) (s : Text) → m ≤ n → take m (take n s) ≡ take m s
unfolding take
take-take_le zero n s h = refl
take-take_le (suc m) zero s h = absurd (omega arith)
take-take_le (suc m) (suc n) [] h = refl
take-take_le (suc m) (suc n) (c ∷ s) h = cc (take-take_le m n s (omega arith))

pub length-hex : (w n : ℕ) → length (hex w n) ≡ w
unfolding hex
length-hex zero n = refl
length-hex (suc w) n =
    omega (arith, length-hex w (n / 16), length-append (hex w (n / 16)) (hex_digit (n % 16) ∷ []))

pub length-spaces : (n : ℕ) → length (spaces n) ≡ n
unfolding spaces
length-spaces zero = refl
length-spaces (suc n) = omega (arith, length-spaces n)
