-- ===== src/Shared/Bits.antt =====
-- Words as native numbers, read bit by bit.
use Prim.Native.Nat.{
  ℕ, zero, suc, ◌+◌, ◌-◌, ◌*◌, ◌/◌, ◌%◌, ◌^◌, ◌≤◌, ◌<◌, min, max, bit_and, bit_or, digits, bitwise,
  bit_and-bitwise, bit_or-bitwise,
}
use mathlib.Core.Path.{◌≡◌, refl, ap, sym, ◌∙◌}
use mathlib.Core.Bool.{Bool, false, not, ◌&&◌, ◌||◌}
use native.Mathlib.Nat.{
  le_refl, pow-suc, one-le-pow, mod-eq_of_lt, mod-lt, mul-add-mod_self_right, div-add-mod',
  div-div-eq-div-mul, zero-add, suc-add,
}
use native.Mathlib.Omega.{arith}
use msx_pulse.Shared.Tests.{◌==◌, ◌!=◌}

-- What the native operations stand for: digit by digit, with the first operand as fuel. Any fuel
-- that is not below that operand gives the same digits.
module _ (rest : ℕ → ℕ) (join : ℕ → ℕ → ℕ) where
  abbrev walk : ℕ → ℕ → ℕ → ℕ
  walk fuel x y = digits rest join fuel x y

  more_fuel : (fuel x y : ℕ) → x ≤ fuel → walk (suc fuel) x y ≡ walk fuel x y
  more_fuel fuel zero y enough = elim fuel as (λ f. walk (suc f) 0 y ≡ walk f 0 y) [
    | zero ↦ refl
    | suc f ↦ refl
  ]
  more_fuel zero (suc x) y enough = absurd (omega arith)
  more_fuel (suc fuel) (suc x) y enough =
      ap (λ (t : ℕ). t * 2 + join (suc x % 2) (y % 2))
        (more_fuel fuel (suc x / 2) (y / 2) (omega arith))

  spare_fuel : (gap fuel x y : ℕ) → x ≤ fuel → walk (gap + fuel) x y ≡ walk fuel x y
  spare_fuel zero fuel x y enough = rw zero-add
  spare_fuel (suc gap) fuel x y enough =
      rw suc-add (more_fuel (gap + fuel) x y (omega arith) ∙ spare_fuel gap fuel x y enough)

  bitwise_digit :
      (x y : ℕ)
      → bitwise rest join (suc x) y
        ≡ bitwise rest join (suc x / 2) (y / 2) * 2 + join (suc x % 2) (y % 2)
  bitwise_digit x y =
      let split : x - suc x / 2 + suc x / 2 ≡ x = omega arith in
      ap (λ (t : ℕ). t * 2 + join (suc x % 2) (y % 2))
        (ap (λ (t : ℕ). walk t (suc x / 2) (y / 2)) (sym split)
          ∙ spare_fuel (x - suc x / 2) (suc x / 2) (suc x / 2) (y / 2) (le_refl _))

-- So the lowest digit of the result is that of the operands, and the rest is that of the rest.
pub bit_and_step : (x y : ℕ) → bit_and x y ≡ min (x % 2) (y % 2) + 2 * bit_and (x / 2) (y / 2)
bit_and_step zero y = simp bit_and-bitwise (omega arith)
bit_and_step (suc x) y = simp bit_and-bitwise (omega (arith, bitwise_digit (λ _. 0) min x y))

pub bit_or_step : (x y : ℕ) → bit_or x y ≡ max (x % 2) (y % 2) + 2 * bit_or (x / 2) (y / 2)
bit_or_step zero y = simp bit_or-bitwise (omega arith)
bit_or_step (suc x) y = simp bit_or-bitwise (omega (arith, bitwise_digit (λ k. k) max x y))

-- Bit `k` of `n`, the lowest being bit 0.
unfoldable pub bit : ℕ → ℕ → Bool
bit zero n = n % 2 == 1
bit (suc k) n = bit k (n / 2)

-- `~n` in a word of `w` bits that holds `n`.
abbrev pub bit_not : ℕ → ℕ → ℕ
bit_not w n = 2 ^ w - 1 - n

-- `n & (1u << k)` as a condition.
abbrev pub has_bit : ℕ → ℕ → Bool
has_bit n k = bit_and n (2 ^ k) != 0

pub bit-bit_or : (k a b : ℕ) → bit k (bit_or a b) ≡ (bit k a || bit k b)
unfolding bit
bit-bit_or zero a b = ground (arith, bit_or_step a b)
bit-bit_or (suc k) a b =
    let half : bit_or a b / 2 ≡ bit_or (a / 2) (b / 2) = omega (arith, bit_or_step a b) in
    rw half (bit-bit_or k (a / 2) (b / 2))

pub bit-bit_and : (k a b : ℕ) → bit k (bit_and a b) ≡ (bit k a && bit k b)
unfolding bit
bit-bit_and zero a b = ground (arith, bit_and_step a b)
bit-bit_and (suc k) a b =
    let half : bit_and a b / 2 ≡ bit_and (a / 2) (b / 2) = omega (arith, bit_and_step a b) in
    rw half (bit-bit_and k (a / 2) (b / 2))

pub bit-bit_not : (w k n : ℕ) → k < w → n < 2 ^ w → bit k (bit_not w n) ≡ not (bit k n)
unfolding bit
bit-bit_not zero k n hk hn = absurd (omega arith)
bit-bit_not (suc w) zero n hk hn = ground (arith, pow-suc 2 w)
bit-bit_not (suc w) (suc k) n hk hn =
    let half : bit_not (suc w) n / 2 ≡ bit_not w (n / 2) = omega (arith, pow-suc 2 w) in
    rw half (bit-bit_not w k (n / 2) (omega arith) (omega (arith, pow-suc 2 w)))

pub bit-zero : (k : ℕ) → bit k 0 ≡ false
unfolding bit
bit-zero zero = refl
bit-zero (suc k) = bit-zero k

pub bit_above : (w k n : ℕ) → w ≤ k → n < 2 ^ w → bit k n ≡ false
unfolding bit
bit_above zero k n hk hn = let none_set : n ≡ 0 = omega arith in rw none_set (bit-zero k)
bit_above (suc w) zero n hk hn = absurd (omega arith)
bit_above (suc w) (suc k) n hk hn = bit_above w k (n / 2) (omega arith) (omega (arith, pow-suc 2 w))

pub bit_two_pow : (j k : ℕ) → bit j (2 ^ k) ≡ (j == k)
unfolding bit
bit_two_pow zero zero = refl
bit_two_pow zero (suc k) = ground (arith, pow-suc 2 k)
bit_two_pow (suc j) zero = ground (arith, bit-zero j)
bit_two_pow (suc j) (suc k) =
    let half : 2 ^ suc k / 2 ≡ 2 ^ k = omega (arith, pow-suc 2 k) in
    rw half (ground (arith, bit_two_pow j k))

bit_and-zero : (most n : ℕ) → n ≤ most → bit_and n 0 ≡ 0
bit_and-zero most zero few = refl
bit_and-zero (suc most) (suc n) few =
    omega (arith, bit_and_step (suc n) 0, bit_and-zero most (suc n / 2) (omega arith))
bit_and-zero zero (suc n) few = absurd (omega arith)

pub bit_and-one : (a : ℕ) → bit_and a 1 ≡ a % 2
bit_and-one a = omega (arith, bit_and_step a 1, bit_and-zero (a / 2) (a / 2) (omega arith))

pub has_bit-bit : (k n : ℕ) → has_bit n k ≡ bit k n
unfolding bit
has_bit-bit zero n = ground (arith, bit_and-one n)
has_bit-bit (suc k) n = ground (
  arith,
  bit_and_step n (2 ^ suc k),
  pow-suc 2 k,
  has_bit-bit k (n / 2),
  ap (λ (t : ℕ). bit_and (n / 2) t) (halve k),
)
  where
    halve : (k : ℕ) → 2 ^ suc k / 2 ≡ 2 ^ k
    halve k = omega (arith, pow-suc 2 k)

-- The operations stay in the word.
pub bit_or_lt : (w a b : ℕ) → a < 2 ^ w → b < 2 ^ w → bit_or a b < 2 ^ w
bit_or_lt zero a b ha hb =
    let a0 : a ≡ 0 = omega arith in let b0 : b ≡ 0 = omega arith in rw (a0, b0) (omega arith)
bit_or_lt (suc w) a b ha hb = omega (
  arith,
  bit_or_step a b,
  pow-suc 2 w,
  bit_or_lt w (a / 2) (b / 2) (omega (arith, pow-suc 2 w)) (omega (arith, pow-suc 2 w)),
)

pub bit_and-le : (w a b : ℕ) → a ≤ w → bit_and a b ≤ a
bit_and-le w zero b h = omega (arith, bit_and_zero_left b)
  where
    bit_and_zero_left : (b : ℕ) → bit_and 0 b ≡ 0
    bit_and_zero_left b = bit_and-bitwise 0 b
bit_and-le zero (suc a) b h = absurd (omega arith)
bit_and-le (suc w) (suc a) b h =
    omega (arith, bit_and_step (suc a) b, bit_and-le w (suc a / 2) (b / 2) (omega arith))

-- Words of `w` bits with the same bits are the same.
pub bits_ext : (w a b : ℕ) → a < 2 ^ w → b < 2 ^ w → ((k : ℕ) → k < w → bit k a ≡ bit k b) → a ≡ b
unfolding bit
bits_ext zero a b ha hb h = omega arith
bits_ext (suc w) a b ha hb h =
    let halves : a / 2 ≡ b / 2 =
      bits_ext w (a / 2) (b / 2) (omega (arith, pow-suc 2 w)) (omega (arith, pow-suc 2 w))
        (λ k hk. h (suc k) (omega arith)) in
    ground (arith, halves, h 0 (omega arith))

pub bit_and_lt : (w a b : ℕ) → a < 2 ^ w → bit_and a b < 2 ^ w
bit_and_lt w a b ha = omega (arith, bit_and-le a a b (le_refl a))

-- Two masks are joined to a third in either order.
bit_or_right_comm_below :
    (w a b c : ℕ) → a ≤ w → b ≤ w → c ≤ w → bit_or (bit_or a b) c ≡ bit_or (bit_or a c) b
bit_or_right_comm_below zero a b c ha hb hc =
    let a0 : a ≡ 0 = omega arith in
    let b0 : b ≡ 0 = omega arith in let c0 : c ≡ 0 = omega arith in rw (a0, b0, c0) refl
bit_or_right_comm_below (suc w) a b c ha hb hc =
    let (x, y, z) = halves in
    ground (
      arith,
      bit_or_step a b,
      bit_or_step a c,
      bit_or_step (bit_or a b) c,
      bit_or_step (bit_or a c) b,
      ap (λ (t : ℕ). bit_or t (c / 2)) (half_of a b),
      ap (λ (t : ℕ). bit_or t (b / 2)) (half_of a c),
      bit_or_right_comm_below w (a / 2) (b / 2) (c / 2) x y z,
    )
  where
    half_of : (x y : ℕ) → bit_or x y / 2 ≡ bit_or (x / 2) (y / 2)
    half_of x y = omega (arith, bit_or_step x y)

    halves : (a / 2 ≤ w) × (b / 2 ≤ w) × (c / 2 ≤ w)
    halves = (omega arith, omega arith, omega arith)

pub bit_or_right_comm : (a b c : ℕ) → bit_or (bit_or a b) c ≡ bit_or (bit_or a c) b
bit_or_right_comm a b c =
    bit_or_right_comm_below (a + b + c) a b c (omega arith) (omega arith) (omega arith)

pub two_pow_lt : (w k : ℕ) → k < w → 2 ^ k < 2 ^ w
two_pow_lt zero k h = absurd (omega arith)
two_pow_lt (suc w) zero h = omega (arith, pow-suc 2 w, one-le-pow w 2 (omega arith))
two_pow_lt (suc w) (suc k) h = omega (arith, pow-suc 2 w, pow-suc 2 k, two_pow_lt w k (omega arith))

-- The flag of a bit within the word is not cut off.
pub two_pow_fits : (w k : ℕ) → k < w → 2 ^ k % 2 ^ w ≡ 2 ^ k
two_pow_fits w k h = mod-eq_of_lt (two_pow_lt w k h)

mod_double : (a p : ℕ) → 1 ≤ p → a % (2 * p) ≡ a / 2 % p * 2 + a % 2
mod_double a p h =
    ap (λ (t : ℕ). t % (2 * p)) whole
    ∙ mul-add-mod_self_right (a / 2 / p) (2 * p) low
    ∙ mod-eq_of_lt (omega (arith, mod-lt (a / 2) {m = p} h))
  where
    low : ℕ
    low = a / 2 % p * 2 + a % 2

    whole : a ≡ a / 2 / p * (2 * p) + low
    whole = omega (arith, div-add-mod' (a / 2) p)

-- A mask of the low bits takes the remainder.
pub bit_and_mask : (w a : ℕ) → bit_and a (2 ^ w - 1) ≡ a % 2 ^ w
bit_and_mask zero a = omega (arith, bit_and-zero a a (le_refl a))
bit_and_mask (suc w) a =
    let half : (2 ^ suc w - 1) / 2 ≡ 2 ^ w - 1 = omega (arith, pow-suc 2 w) in
    ground (
      arith,
      bit_and_step a (2 ^ suc w - 1),
      ap (λ (t : ℕ). bit_and (a / 2) t) half,
      bit_and_mask w (a / 2),
      ap (λ (t : ℕ). a % t) (pow-suc 2 w),
      pow-suc 2 w,
      one-le-pow w 2 (omega arith),
      mod_double a (2 ^ w) (one-le-pow w 2 (omega arith)),
    )

-- `(n >> k) & 1u` is bit `k` of `n`.
pub bit_shifted : (k n : ℕ) → bit k n ≡ (n / 2 ^ k % 2 == 1)
unfolding bit
bit_shifted zero n = ground arith
bit_shifted (suc k) n =
    bit_shifted k (n / 2)
    ∙ ap (λ (t : ℕ). t % 2 == 1)
        (div-div-eq-div-mul n 2 (2 ^ k) ∙ ap (λ (t : ℕ). n / t) (two_pow_suc k))
  where
    two_pow_suc : (k : ℕ) → 2 * 2 ^ k ≡ 2 ^ suc k
    two_pow_suc k = omega (arith, pow-suc 2 k)
