-- ===== src/AdcRails/Volts.antt =====
-- The voltages of the rails and their status in src/firmware/adc_rails.c. A rail is its index: no
-- caller passes a negative one.
use msx_pulse.Shared.{
  ℕ, zero, suc, ◌≤◌, Bool, ◌&&◌, ◌||◌, ◌==◌, ltb, if◌then◌else◌, List, [], ◌∷◌, get_or, arith,
}
use msx_pulse.AdcRails.{Adc}
use msx_pulse.Console.Lines.{RailSnapshot}

-- The operations of `float`; `literal n d` is the float that the literal of the decimal n / d denotes.
pub record Floats (V : Type 0) : Type 0 where
  pub of_nat : ℕ → V
  pub literal : (n d : ℕ) → V
  pub neg : V → V
  pub sub : V → V → V
  pub mul : V → V → V
  pub div : V → V → V
  pub lt : V → V → Bool
  pub le : V → V → Bool

module _ {V : Type 0} (floats : Floats V) where
  unfoldable pub raw_to_v : ℕ → V
  raw_to_v raw_avg =
      floats.mul (floats.of_nat raw_avg) (floats.div (floats.literal 33 10) (floats.literal 4095 1))

  unfoldable pub calc_voltage : (rail : ℕ) → V → V
  calc_voltage zero vadc = floats.mul vadc (floats.literal 2 1)
  calc_voltage (suc zero) vadc = floats.mul vadc (floats.literal 43 10)
  calc_voltage (suc (suc zero)) vadc =
      floats.sub (floats.mul vadc (floats.literal 92 10)) (floats.literal 2706 100)
  calc_voltage _ vadc = floats.literal 0 1

  abbrev nominal : List V
  nominal = floats.literal 5 1 ∷ floats.literal 12 1 ∷ floats.neg (floats.literal 12 1) ∷ []

  -- How far a voltage is off its nominal value, as a fraction of it.
  abbrev off_by : (rail : ℕ) → V → V
  off_by rail v =
      let nom = get_or nominal rail (floats.literal 0 1) in
      let pct = floats.div (floats.sub v nom) nom in
      if floats.lt pct (floats.literal 0 1) then floats.neg pct else pct

  unfoldable pub check_threshold : (rail : ℕ) → V → ℕ
  check_threshold rail v =
      if ltb 2 rail
      then 2
      else if (rail == 0 || rail == 1) && floats.lt v (floats.literal 1 1)
      then 3
      else if rail == 2 && floats.le (floats.neg (floats.literal 2 1)) v
      then 3
      else if floats.lt (floats.literal 10 100) (off_by rail v)
      then 2
      else if floats.lt (floats.literal 5 100) (off_by rail v)
      then 1
      else 0

  -- `adc_rails_snapshot`, less the time, which nothing reads.
  unfoldable pub snapshot : Adc → RailSnapshot V
  unfolding raw_to_v calc_voltage check_threshold
  snapshot a =
      let v5 = calc_voltage 0 (raw_to_v a.avg_5v) in
      let v12 = calc_voltage 1 (raw_to_v a.avg_12v) in
      let vm12 = calc_voltage 2 (raw_to_v a.avg_m12v) in
      record {
        v5 = v5;
        v12 = v12;
        vm12 = vm12;
        statuses = record {
          status_5v = check_threshold 0 v5;
          status_12v = check_threshold 1 v12;
          status_m12v = check_threshold 2 vm12;
        };
      }

  -- Whatever the floats are, a status is one of the four that have a tag.
  pub check_threshold_le : (rail : ℕ) (v : V) → check_threshold rail v ≤ 3
  unfolding check_threshold
  check_threshold_le rail v = ground arith
