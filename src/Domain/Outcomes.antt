-- ===== src/Domain/Outcomes.antt =====
-- What holds of a result if it is no error, and the rules of its chains.
use payment_gateway_router.Common.{◌≡◌, refl, ◌⊎◌, inl, inr}
use payment_gateway_router.Domain.Errors.{Error, Result, ok, err, ◌>>=◌, ◌>>◌}

abbrev pub WhenOk : {A : Type 0} → (A → Type 0) → Result A → Type 0
WhenOk P (err e) = Unit
WhenOk P (ok a) = P a

module _ {A B : Type 0} (P : A → Type 0) (Q : B → Type 0) where
  pub bind-WhenOk :
      (r : Result A) (f : A → Result B)
      → WhenOk P r
      → ((a : A) → P a → WhenOk Q (f a))
      → WhenOk Q (r >>= f)
  bind-WhenOk (err e) f h k = tt
  bind-WhenOk (ok a) f h k = k a h

module _ {A B : Type 0} (Q : B → Type 0) where
  pub any-WhenOk :
      (r : Result A) (f : A → Result B) → ((a : A) → WhenOk Q (f a)) → WhenOk Q (r >>= f)
  any-WhenOk (err e) f k = tt
  any-WhenOk (ok a) f k = k a

module _ {B : Type 0} (Q : B → Type 0) where
  pub checked-WhenOk :
      (r : Result (Unit {0})) (next : Result B) → (r ≡ ok tt → WhenOk Q next) → WhenOk Q (r >> next)
  checked-WhenOk (err e) next k = tt
  checked-WhenOk (ok _) next k = k refl

pub unknown : {A : Type 0} (r : Result A) → WhenOk (λ _. Unit {0}) r
unknown (err e) = tt
unknown (ok a) = tt

pub Result-cases :
    {A : Type 0} (r : Result A) → ((e : Error) × (r ≡ err e)) ⊎ ((a : A) × (r ≡ ok a))
Result-cases (err e) = inl (e, refl)
Result-cases (ok a) = inr (a, refl)
