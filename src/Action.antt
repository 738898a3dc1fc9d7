-- ===== src/Action.antt =====
-- A call on a shared object: it returns a result or an error, and the state that it left behind,
-- since what was written before an error stays written.
pub mod Post
use payment_gateway_router.Domain.Errors.{Error, Result, ok, err}

abbrev pub Action : Type 0 → Type 0 → Type 0
Action S A = S → Result A × S

module _ {S A : Type 0} where
  abbrev pub pure : A → Action S A
  pure a s = (ok a, s)

  abbrev pub raise : Error → Action S A
  raise e s = (err e, s)

  abbrev pub lift : Result A → Action S A
  lift r s = (r, s)

  abbrev pub gets : (S → A) → Action S A
  gets f s = (ok (f s), s)

infixl 10 ◌>>=◌ ◌>>◌
unfoldable pub ◌>>=◌ : {S A B : Type 0} → Action S A → (A → Action S B) → Action S B
◌>>=◌ m f s = let (r, s') = m s in elim r [ ok a ↦ f a s' | err e ↦ (err e, s') ]

abbrev pub ◌>>◌ : {S A B : Type 0} → Action S A → Action S B → Action S B
m >> k = m >>= λ _. k

abbrev pub modify : {S : Type 0} → (S → S) → Action S (Unit {0})
modify f s = (ok tt, f s)

-- `if m fails { cleanup; return its error }`: the cleanup's own error is dropped.
abbrev pub on_error : {S A B : Type 0} → Action S A → (Error → Action S B) → Action S A
on_error m cleanup s =
    let (r, s') = m s in elim r [ ok a ↦ (ok a, s') | err e ↦ (err e, (cleanup e s').1) ]
