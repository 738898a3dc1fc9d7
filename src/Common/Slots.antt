-- ===== src/Common/Slots.antt =====
-- Counting the numbers of an interval, lo ≤ k < lo + n, that pass a test.
use native.Mathlib.Nat.{add-zero, add-suc, add_assoc, add_comm}
use native.Mathlib.Numerals.{add-one}
use Prim.Native.Nat.{ℕ, zero, suc, ◌+◌, ◌≤◌, ◌<◌}
use mathlib.Core.Path.{◌≡◌, refl, sym, ◌∙◌, ap}
use mathlib.Core.Bool.{Bool}
use native.Mathlib.Omega.{arith}
use payment_gateway_router.Common.Tests.{if◌then◌else◌}

abbrev pub count_slots : (ℕ → Bool) → ℕ → ℕ → ℕ
count_slots f lo zero = 0
count_slots f lo (suc n) = (if f (lo + n) then 1 else 0) + count_slots f lo n

pub count_slots-add :
    (f : ℕ → Bool) (lo a b : ℕ)
    → count_slots f lo (a + b) ≡ count_slots f lo a + count_slots f (lo + a) b
count_slots-add f lo a zero = simp add-zero
count_slots-add f lo a (suc b) =
    rw (add-suc, add_assoc lo a b) (omega (arith, count_slots-add f lo a b))

pub count_slots_cong :
    (f g : ℕ → Bool) (lo n : ℕ)
    → ((k : ℕ) → lo ≤ k → k < lo + n → f k ≡ g k)
    → count_slots f lo n ≡ count_slots g lo n
count_slots_cong f g lo zero h = refl
count_slots_cong f g lo (suc n) h = rw (
  h (lo + n) (omega arith) (omega arith),
  count_slots_cong f g lo n (λ k p q. h k p (omega arith)),
)

pub count_slots_const : (b : Bool) (lo n : ℕ) → count_slots (λ _. b) lo n ≡ (if b then n else 0)
count_slots_const b lo zero = ground arith
count_slots_const b lo (suc n) = ground (arith, count_slots_const b lo n)

-- A test with period `t` passes as often in any interval of that length.
pub count_slots_rotate :
    (f : ℕ → Bool) (t lo : ℕ) → ((k : ℕ) → f (k + t) ≡ f k) → count_slots f lo t ≡ count_slots f 0 t
count_slots_rotate f t zero periodic = refl
count_slots_rotate f t (suc lo) periodic =
    let shifted =
      sym (count_slots-add f lo 1 t)
      ∙ ap (count_slots f lo) (add_comm 1 t)
      ∙ count_slots-add f lo t 1 in
    let fact = simp (add-zero, add-one, periodic) at shifted in
    omega (arith, fact, count_slots_rotate f t lo periodic)
