-- ===== src/GoFloat.antt =====
-- Go's float64, as far as the program uses it. A float is the number of its IEEE 754 bit pattern; sums,
-- differences and products are exact and then rounded to the nearest float, to even at a tie.
use kenshu_elaris_project_gu.Prelude.{
  Bool, if◌then◌else◌, leb, ltb, false, max, min, not, suc, true, zero, ℕ, ◌%◌, ◌&&◌, ◌*◌, ◌+◌, ◌-◌,
  ◌/◌, ◌==◌, ◌^◌, ◌||◌,
}

abbrev pub Float64 : Type 0
Float64 = ℕ

abbrev plus_infinity : ℕ
plus_infinity = 9_218_868_437_227_405_312

abbrev pub minus_zero : ℕ
minus_zero = 9_223_372_036_854_775_808

abbrev minus_infinity : ℕ
minus_infinity = 18_442_240_474_082_181_120

-- `x > 0`, which is false of NaN
abbrev pub above_zero : Float64 → Bool
above_zero x = ltb 0 x && leb x plus_infinity

-- `x <= 0`, which is false of NaN too
abbrev pub at_most_zero : Float64 → Bool
at_most_zero x = x == 0 || (leb minus_zero x && leb x minus_infinity)

-- The fields of a pattern: the sign, the exponent and the fraction.
abbrev sign_of : Float64 → Bool
sign_of x = leb minus_zero x

abbrev exponent_of : Float64 → ℕ
exponent_of x = (x / 2 ^ 52) % 2048

abbrev fraction_of : Float64 → ℕ
fraction_of x = x % 2 ^ 52

abbrev is_nan : Float64 → Bool
is_nan x = exponent_of x == 2047 && ltb 0 (fraction_of x)

abbrev is_infinite : Float64 → Bool
is_infinite x = exponent_of x == 2047 && fraction_of x == 0

-- A finite float is `mantissa_of x * 2 ^ (scale_of x) / 2 ^ 1075` up to its sign.
abbrev mantissa_of : Float64 → ℕ
mantissa_of x = if exponent_of x == 0 then fraction_of x else 2 ^ 52 + fraction_of x

abbrev scale_of : Float64 → ℕ
scale_of x = max 1 (exponent_of x)

abbrev not_a_number : Float64
not_a_number = 9_221_120_237_041_090_560

abbrev differ : Bool → Bool → Bool
differ true b = not b
differ false b = b

abbrev signed : Bool → Float64 → Float64
signed negative x = if negative then minus_zero + x else x

-- `m` is doubled until it has 53 bits, while its scale stays above the least.
abbrev scale_up : ℕ → ℕ → ℕ → ℕ × ℕ
scale_up zero m s = (m, s)
scale_up (suc fuel) m s = elim (ltb m (2 ^ 52) && ltb 1076 s) [
  | true ↦ scale_up fuel (2 * m) (s - 1)
  | false ↦ (m, s)
]

-- How many of its last bits `m` loses to have at most 53, from `k` on.
abbrev bits_lost : ℕ → ℕ → ℕ → ℕ
bits_lost zero k m = k
bits_lost (suc fuel) k m = elim (ltb (m / 2 ^ k) (2 ^ 53)) [
  | true ↦ k
  | false ↦ bits_lost fuel (suc k) m
]

-- `m / 2 ^ k`, to the nearest number, and to the even one of two that are equally near.
abbrev round_to_even : ℕ → ℕ → ℕ
round_to_even k m =
    let q = m / 2 ^ k in
    let r = 2 * (m % 2 ^ k) in if ltb (2 ^ k) r || (r == 2 ^ k && q % 2 == 1) then q + 1 else q

abbrev pattern_at : ℕ → ℕ → ℕ → Float64
pattern_at k m s = min plus_infinity ((s + k - 1076) * 2 ^ 52 + round_to_even k m)

abbrev round_scaled : ℕ × ℕ → Float64
round_scaled (m, s) = pattern_at (bits_lost 2200 (1076 - s) m) m s

-- The float nearest to `m * 2 ^ s / 2 ^ 2150`
abbrev nearest : ℕ → ℕ → Float64
nearest m s = if m == 0 then 0 else round_scaled (scale_up 2200 m s)

-- The sum of two numbers of units with signs, in units of `2 ^ s / 2 ^ 1075`.
abbrev sum_of : Bool → ℕ → Bool → ℕ → ℕ → Float64
sum_of na a nb b s =
    if not (differ na nb)
    then signed na (nearest (a + b) (s + 1075))
    else if ltb b a
    then signed na (nearest (a - b) (s + 1075))
    else if ltb a b
    then signed nb (nearest (b - a) (s + 1075))
    else 0

abbrev finite_sum : Float64 → Float64 → Float64
finite_sum x y =
    let s = min (scale_of x) (scale_of y) in
    sum_of (sign_of x) (mantissa_of x * 2 ^ (scale_of x - s)) (sign_of y)
      (mantissa_of y * 2 ^ (scale_of y - s)) s

-- `x + y`
abbrev pub float_add : Float64 → Float64 → Float64
float_add x y =
    if is_nan x || is_nan y
    then not_a_number
    else if is_infinite x && is_infinite y && not (x == y)
    then not_a_number
    else if is_infinite x
    then x
    else if is_infinite y
    then y
    else finite_sum x y

-- `-x`
abbrev float_neg : Float64 → Float64
float_neg x = if sign_of x then x - minus_zero else minus_zero + x

-- `x - y`
abbrev pub float_sub : Float64 → Float64 → Float64
float_sub x y = float_add x (float_neg y)

abbrev is_zero : Float64 → Bool
is_zero x = exponent_of x == 0 && fraction_of x == 0

-- `x * y`
abbrev pub float_mul : Float64 → Float64 → Float64
float_mul x y =
    let negative = differ (sign_of x) (sign_of y) in
    if is_nan x || is_nan y
    then not_a_number
    else if (is_infinite x && is_zero y) || (is_zero x && is_infinite y)
    then not_a_number
    else if is_infinite x || is_infinite y
    then signed negative plus_infinity
    else signed negative (nearest (mantissa_of x * mantissa_of y) (scale_of x + scale_of y))

-- The literals `1.0`, `0.80`, `0.60`, `0.40`, `0.30`, `0.20`, `0.10` and `0.05`
abbrev pub float_1 : Float64
float_1 = 4_607_182_418_800_017_408

abbrev pub float_0_80 : Float64
float_0_80 = 4_605_380_978_949_069_210

abbrev pub float_0_60 : Float64
float_0_60 = 4_603_579_539_098_121_011

abbrev pub float_0_40 : Float64
float_0_40 = 4_600_877_379_321_698_714

abbrev pub float_0_30 : Float64
float_0_30 = 4_599_075_939_470_750_515

abbrev pub float_0_20 : Float64
float_0_20 = 4_596_373_779_694_328_218

abbrev pub float_0_10 : Float64
float_0_10 = 4_591_870_180_066_957_722

abbrev pub float_0_05 : Float64
float_0_05 = 4_587_366_580_439_587_226
