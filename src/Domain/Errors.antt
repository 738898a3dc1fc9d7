-- ===== src/Domain/Errors.antt =====
-- internal/domain/errors.go: the sentinel errors, and a result that may be one of them. An error
-- made by `fmt.Errorf("%w: …")` is its sentinel, which is what `errors.Is` finds; `message` holds
-- the constant text of an error that wraps none of them.
use payment_gateway_router.Common.{String, Bool, true, false, if◌then◌else◌}

pub data Error : Type 0 where
  conflict gateway_mismatch invalid_callback invalid_status : Error
  no_available_gateway not_found unsupported_gateway : Error
  message : String → Error

pub data Result {ℓ} (A : Type ℓ) : Type ℓ where
  err : Error → Result A
  ok : A → Result A

abbrev pub is_ok {ℓ} : {A : Type ℓ} → Result A → Bool
is_ok (err e) = false
is_ok (ok a) = true

-- `if err != nil { return err }`
infixl 10 ◌>>=◌ ◌>>◌
abbrev pub ◌>>=◌ {ℓ κ} : {A : Type ℓ} {B : Type κ} → Result A → (A → Result B) → Result B
r >>= next = elim r [ err e ↦ err e | ok a ↦ next a ]

-- `if bad { return err }`
abbrev pub fail_if : Bool → Error → Result (Unit {0})
fail_if bad e = if bad then err e else ok tt

abbrev pub ◌>>◌ {ℓ} : {B : Type ℓ} → Result (Unit {0}) → Result B → Result B
checked >> next = elim checked [ err e ↦ err e | ok _ ↦ next ]
