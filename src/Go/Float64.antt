-- ===== src/Go/Float64.antt =====
-- Go's `float64`: IEEE 754 binary64 with rounding to nearest, ties to even. Every finite value is
-- a whole multiple of 2^-1074, so `fin k` stands for k * 2^-1074 (the two zeros are one value,
-- which the comparisons and the division by a positive number do not tell apart).
use payment_gateway_router.Common.{
  ℕ, zero, suc, ◌+◌, ◌*◌, ◌/◌, ◌%◌, ◌^◌, ◌≡◌, refl, Bool, true, false, ltb, if◌then◌else◌,
}
use payment_gateway_router.Go.Int.{ℤ, pos, negsuc, pos_part, neg_part, sub_ℕ, ltb_ℤ, leb_ℤ}

pub data Float64 : Type 0 where
  nan plus_inf minus_inf : Float64
  fin : ℤ → Float64

-- How many of the low bits of a quotient lie below its 53 bits of precision.
unfoldable pub excess_bits : ℕ → ℕ → ℕ
excess_bits zero k = 0
excess_bits (suc fuel) k =
    let more = suc (excess_bits fuel (k / 2)) in if ltb k (2 ^ 53) then 0 else more

-- The multiple of `step` that is nearest to p / q, the even one of two.
unfoldable pub nearest : ℕ → ℕ → ℕ → ℕ
nearest p q step =
    let m = p / (q * step) in
    let twice = 2 * (p % (q * step)) in
    if ltb twice (q * step)
    then m * step
    else if ltb (q * step) twice
    then (m + 1) * step
    else (m + m % 2) * step

-- p / q for q ≠ 0, rounded. A quotient of more than 2098 bits overflows.
unfoldable pub round : ℕ → ℕ → Float64
unfolding excess_bits nearest
round p q =
    let k = nearest p q (2 ^ excess_bits 2100 (p / q)) in
    if ltb k (2 ^ 2098) then fin (pos k) else plus_inf

unfoldable pub negate : Float64 → Float64
negate nan = nan
negate plus_inf = minus_inf
negate minus_inf = plus_inf
negate (fin k) = fin (sub_ℕ (neg_part k) (pos_part k))

-- The literal p / q, and the conversion of a natural number.
unfoldable pub of_ratio : ℕ → ℕ → Float64
unfolding round
of_ratio p q = round (p * 2 ^ 1074) q

unfoldable pub of_ℕ : ℕ → Float64
unfolding of_ratio
of_ℕ n = of_ratio n 1

-- `x < y` and `x <= y`; every comparison with NaN is false.
unfoldable pub lt : Float64 → Float64 → Bool
lt nan y = false
lt x nan = false
lt (fin a) (fin b) = ltb_ℤ a b
lt minus_inf minus_inf = false
lt minus_inf y = true
lt x plus_inf = elim x [ plus_inf ↦ false | _ ↦ true ]
lt x y = false

unfoldable pub le : Float64 → Float64 → Bool
le nan y = false
le x nan = false
le (fin a) (fin b) = leb_ℤ a b
le minus_inf y = true
le x plus_inf = true
le x y = false

-- `x / y` for a positive finite y of `b` units.
div_units : Float64 → ℕ → Float64
unfolding round negate
div_units nan b = nan
div_units plus_inf b = plus_inf
div_units minus_inf b = minus_inf
div_units (fin (pos a)) b = round (a * 2 ^ 1074) b
div_units (fin (negsuc a)) b = negate (round (suc a * 2 ^ 1074) b)

-- `x / y`. A zero divisor counts as +0.
unfoldable pub div : Float64 → Float64 → Float64
unfolding div_units negate
div x (fin (pos zero)) = elim x [
  | nan ↦ nan
  | plus_inf ↦ plus_inf
  | minus_inf ↦ minus_inf
  | fin k ↦ if ltb_ℤ (pos 0) k then plus_inf else if ltb_ℤ k (pos 0) then minus_inf else nan
]
div x (fin (pos (suc b))) = div_units x (suc b)
div x (fin (negsuc b)) = negate (div_units x (suc b))
div x nan = nan
div x inf = elim x [ fin k ↦ fin (pos 0) | _ ↦ nan ]

-- Nine of ten is the float that the literal 0.90 denotes, and so is 90 / 100.
nine_tenths : div (of_ℕ 9) (of_ℕ 10) ≡ of_ratio 90 100
unfolding div of_ℕ of_ratio
nine_tenths = refl

ninety_percent : div (of_ℕ 90) (of_ℕ 100) ≡ of_ratio 9 10
unfolding div of_ℕ of_ratio
ninety_percent = refl

below_nine_tenths : lt (div (of_ℕ 8) (of_ℕ 9)) (of_ratio 9 10) ≡ true
unfolding div of_ℕ of_ratio lt
below_nine_tenths = refl
