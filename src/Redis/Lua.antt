-- ===== src/Redis/Lua.antt =====
-- The numbers of the scripts in internal/adapters/repository/redis. A Lua number is a double; those
-- that the scripts count with are whole, and a sum is rounded to 53 bits, ties to even.
use payment_gateway_router.Common.{
  ℕ, zero, suc, ◌+◌, ◌^◌, ◌≤◌, ◌<◌, ◌≡◌, refl, arith, ◌∙◌, ap, inl, inr, ◌-◌, lt→ltb, sym,
  Bool-cases, ltb, ltb→lt,
}
use payment_gateway_router.Go.Int.{ℤ, pos, negsuc, sub_ℕ, ◌+ℤ◌, pos-+ℤ}
use payment_gateway_router.Go.Float64.{excess_bits, nearest}

-- The double that is nearest to a whole number below 2^1024.
unfoldable pub to_double : ℤ → ℤ
to_double (pos n) = pos (nearest n 1 (2 ^ excess_bits 1100 n))
to_double (negsuc n) = sub_ℕ 0 (nearest (suc n) 1 (2 ^ excess_bits 1100 (suc n)))

-- `n + 1` of Lua.
unfoldable pub add_one : ℤ → ℤ
add_one (pos n) = to_double (pos (n + 1))
add_one (negsuc zero) = pos 0
add_one (negsuc (suc n)) = to_double (negsuc n)

-- At 2^53 the count no longer grows.
stuck : add_one (pos (2 ^ 53)) ≡ pos (2 ^ 53)
unfolding add_one to_double nearest excess_bits
stuck = refl

last : add_one (pos (2 ^ 53 - 1)) ≡ pos (2 ^ 53)
unfolding add_one to_double nearest excess_bits
last = refl

highest : to_double (pos (2 ^ 53)) ≡ pos (2 ^ 53)
unfolding to_double nearest excess_bits
highest = refl

-- A count that a double holds, and one that still does when 1 is added.
abbrev pub IsExact : ℤ → Type 0
IsExact n = (k : ℕ) × (n ≡ pos k) × (k ≤ 2 ^ 53)

abbrev pub IsCount : ℤ → Type 0
IsCount n = (k : ℕ) × (n ≡ pos k) × (k < 2 ^ 53)

excess_bits-small : (fuel k : ℕ) → k < 2 ^ 53 → excess_bits (suc fuel) k ≡ 0
unfolding excess_bits
excess_bits-small fuel k h = rw (excess_bits, lt→ltb k (2 ^ 53) h) refl

nearest-one : (n : ℕ) → nearest n 1 1 ≡ n
unfolding nearest
nearest-one n = ground arith

to_double-small : (k : ℕ) → k < 2 ^ 53 → to_double (pos k) ≡ pos k
unfolding to_double
to_double-small k h =
    ap pos (ap (λ e. nearest k 1 (2 ^ e)) (excess_bits-small 1099 k h) ∙ nearest-one k)

pub to_double-exact : (n : ℤ) → IsExact n → to_double n ≡ n
to_double-exact n (k, e, h) = elim (Bool-cases (ltb k (2 ^ 53))) [
  | inl small ↦ rw e (to_double-small k (ltb→lt k (2 ^ 53) small))
  | inr big ↦ let edge : k ≡ 2 ^ 53 = ground arith in rw (e, edge) highest
]

-- Below 2^53 the sum is exact.
add_one-pos : (k : ℕ) → k < 2 ^ 53 → add_one (pos k) ≡ pos (k + 1)
unfolding add_one
add_one-pos k h = elim (Bool-cases (ltb (k + 1) (2 ^ 53))) [
  | inl small ↦ to_double-small (k + 1) (ltb→lt (k + 1) (2 ^ 53) small)
  | inr big ↦ let edge : k ≡ 2 ^ 53 - 1 = ground arith in rw edge last
]

-- Below 2^53 a count grows as Go's `int` does.
pub add_one-exact : (n : ℤ) → IsCount n → add_one n ≡ n +ℤ pos 1
add_one-exact n (k, e, h) = rw e (add_one-pos k h ∙ sym (pos-+ℤ k 1 (omega arith)))

pub add_one-IsExact : (n : ℤ) → IsCount n → IsExact (n +ℤ pos 1)
add_one-IsExact n (k, e, h) = (k + 1, rw e (pos-+ℤ k 1 (omega arith)), omega arith)

pub IsCount-IsExact : (n : ℤ) → IsCount n → IsExact n
IsCount-IsExact n (k, e, h) = (k, e, omega arith)
