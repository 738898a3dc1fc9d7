-- ===== src/Memory/Blacklist/History.antt =====
-- The blacklist of internal/adapters/repository/memory/order_gateway_blacklist_repository.go as a
-- function of the outcomes that were recorded.
use native.Mathlib.Nat.{add-zero, zero-add}
use payment_gateway_router.Common.{
  ℕ, suc, ◌+◌, ◌^◌, ◌<◌, ◌≡◌, refl, ◌∙◌, ap, String, Bool, true, false, ◌&&◌, Option, none, some,
  List, [], ◌∷◌, arith, str_eq, eq_iff, count, length, leb, ◌==◌, if◌then◌else◌, Bool-cases, inl,
  inr,
}
use payment_gateway_router.Go.Int.{ℤ, pos, pos-+ℤ}
use payment_gateway_router.Go.Time.{Time}
use payment_gateway_router.Go.Dict
use payment_gateway_router.Go.Dict.{get-put, get-empty, get-keys_where, passes}
use payment_gateway_router.Domain.Errors.{ok}
use payment_gateway_router.Domain.Transaction.{
  TransactionStatus, pending, success, failure, other, status_eq, is_final,
}
use payment_gateway_router.Domain.Gateway.{OrderGatewayAttemptSummary}
use payment_gateway_router.Memory.Blacklist.{
  Store, new, by_gateway, summary_of, or_zero, record_outcome, blacklisted_gateways, next_summary,
  at_least_one,
}

pub record Outcome : Type 0 where
  pub order_id : String
  pub gateway : String
  pub status : TransactionStatus
  pub at : Time

abbrev pub record_one : ℤ → Outcome → Store → Store
record_one threshold o s = (record_outcome o.order_id o.gateway o.status threshold o.at s).1

abbrev pub record_all : ℤ → List Outcome → Store → Store
record_all threshold [] s = s
record_all threshold (o ∷ os) s = record_all threshold os (record_one threshold o s)

abbrev pub concerns : String → String → Outcome → Bool
concerns order_id gateway o = str_eq o.order_id order_id && str_eq o.gateway gateway

abbrev pub is_outcome : TransactionStatus → String → String → Outcome → Bool
is_outcome status order_id gateway o = concerns order_id gateway o && status_eq o.status status

-- The counters of a summary, and its flag as they determine it.
record Counted (n successes failures : ℕ) (s : OrderGatewayAttemptSummary) : Type 0 where
  successes_count : s.successes ≡ pos successes
  failures_count : s.failures ≡ pos failures
  flag : s.blacklisted ≡ (successes == 0 && leb n failures)

pub summary-put :
    (s : Store) (o g p h : String) (d : OrderGatewayAttemptSummary)
    → summary_of (Dict.put s o (Dict.put (by_gateway s o) g d)) p h
      ≡ (if str_eq o p && str_eq g h then d else summary_of s p h)
summary-put s o g p h d = ground (
  arith,
  get-put s o p (Dict.put (by_gateway s o) g d),
  get-put (by_gateway s o) g h d,
  eq_iff o p,
)

-- The summary that an outcome leaves for its own order and gateway.
abbrev summary_after : ℤ → Outcome → Store → OrderGatewayAttemptSummary
summary_after n out s =
    next_summary (summary_of s out.order_id out.gateway) out.order_id out.gateway out.status
      (at_least_one n) out.at

record_one-final :
    (n : ℤ) (out : Outcome) (s : Store)
    → is_final out.status ≡ true
    → record_one n out s
      ≡ Dict.put s out.order_id
          (Dict.put (by_gateway s out.order_id) out.gateway (summary_after n out s))
unfolding record_outcome
record_one-final n out s final = rw (record_one, record_outcome, final)

record_one-pending :
    (n : ℤ) (out : Outcome) (s : Store) → is_final out.status ≡ false → record_one n out s ≡ s
unfolding record_outcome
record_one-pending n out s undecided = rw (record_one, record_outcome, undecided)

record_one-summary :
    (n : ℤ) (out : Outcome) (s : Store) (o g : String)
    → summary_of (record_one n out s) o g ≡ (
        if is_final out.status && concerns o g out
        then next_summary (summary_of s o g) o g out.status (at_least_one n) out.at
        else summary_of s o g)
record_one-summary n out s o g = elim (Bool-cases (is_final out.status)) [
  | inl final ↦
      ap (λ s'. summary_of s' o g) (record_one-final n out s final)
      ∙ summary-put s out.order_id out.gateway o g (summary_after n out s)
      ∙ rw final (ground (arith, eq_iff out.order_id o, eq_iff out.gateway g))
  | inr undecided ↦
      ap (λ s'. summary_of s' o g) (record_one-pending n out s undecided) ∙ rw undecided
]

next_summary-Counted :
    (n : ℕ) (status : TransactionStatus) (at : Time) (o g : String)
    (old : OrderGatewayAttemptSummary) (k f : ℕ)
    → 0 < n
    → k + 1 < 2 ^ 63
    → f + 1 < 2 ^ 63
    → Counted n k f old
    → Counted n
        (if status_eq status success then k + 1 else k)
        (if status_eq status failure then f + 1 else f)
        (next_summary old o g status (at_least_one (pos n)) at)
unfolding next_summary
next_summary-Counted n success at o g old k f one fits fits' h = ground (arith, pos-+ℤ k 1 fits)
next_summary-Counted n failure at o g old k f one fits fits' h = ground (arith, pos-+ℤ f 1 fits')
next_summary-Counted n pending at o g old k f one fits fits' h = ground arith
next_summary-Counted n (other t) at o g old k f one fits fits' h = ground arith

-- One outcome of the order and the gateway counts once, any other not at all.
record_one-Counted :
    (n : ℕ) (out : Outcome) (s : Store) (o g : String) (k f : ℕ)
    → 0 < n
    → k + 1 < 2 ^ 63
    → f + 1 < 2 ^ 63
    → Counted n k f (summary_of s o g)
    → Counted n
        (if is_outcome success o g out then k + 1 else k)
        (if is_outcome failure o g out then f + 1 else f)
        (summary_of (record_one (pos n) out s) o g)
record_one-Counted n out s o g k f one fits fits' h = rw (record_one-summary (pos n) out s o g) (
    ground
      (arith, next_summary-Counted n out.status out.at o g (summary_of s o g) k f one fits fits' h))

one_each :
    (status : TransactionStatus) (k f : ℕ) (mine : Bool) (m : ℕ)
    → k + f + suc m < 2 ^ 63
    → (if mine && status_eq status success then k + 1 else k)
        + (if mine && status_eq status failure then f + 1 else f)
        + m
      < 2 ^ 63
one_each success k f mine m fits = ground arith
one_each failure k f mine m fits = ground arith
one_each pending k f mine m fits = ground arith
one_each (other t) k f mine m fits = ground arith

record_all-Counted :
    (n : ℕ) (os : List Outcome) (s : Store) (o g : String) (k f : ℕ)
    → 0 < n
    → k + f + length os < 2 ^ 63
    → Counted n k f (summary_of s o g)
    → Counted n
        (k + count (is_outcome success o g) os)
        (f + count (is_outcome failure o g) os)
        (summary_of (record_all (pos n) os s) o g)
record_all-Counted n [] s o g k f one fits h = simp add-zero h
record_all-Counted n (out ∷ os) s o g k f one fits h =
    let k' : ℕ = if is_outcome success o g out then k + 1 else k in
    let f' : ℕ = if is_outcome failure o g out then f + 1 else f in
    let same : k' + count (is_outcome success o g) os
        ≡ k + count (is_outcome success o g) (out ∷ os) =
      ground arith in
    let same' : f' + count (is_outcome failure o g) os
        ≡ f + count (is_outcome failure o g) (out ∷ os) =
      ground arith in
    let room : k' + f' + length os < 2 ^ 63 =
      one_each out.status k f (concerns o g out) (length os) fits in
    rw (← same, ← same')
      (record_all-Counted n os (record_one (pos n) out s) o g k' f' one room
        (record_one-Counted n out s o g k f one (omega arith) (omega arith) h))

passes-flag :
    (m : Option OrderGatewayAttemptSummary)
    → passes (λ summary. summary.blacklisted) m
      ≡ (if (or_zero m).blacklisted then some tt else none)
passes-flag none = refl
passes-flag (some summary) = refl

new-Counted : (n : ℕ) (o g : String) → 0 < n → Counted n 0 0 (summary_of new o g)
new-Counted n o g one = ground (
  arith,
  get-empty {V = Dict.Dict OrderGatewayAttemptSummary} o,
  get-empty {V = OrderGatewayAttemptSummary} g,
)

-- After any outcomes, fewer than 2^63 of them, under one positive threshold, a gateway is
-- blacklisted for an order exactly when it has failed that order at least as often as the threshold
-- and has never succeeded for it; what happened to other orders and gateways plays no part.
pub blacklisted_iff :
    (n : ℕ) (os : List Outcome) (o g : String)
    → 0 < n
    → length os < 2 ^ 63
    → let failures = count (is_outcome failure o g) os in
      let successes = count (is_outcome success o g) os in
      (found : Dict.Dict (Unit {0})) × ((blacklisted_gateways o (record_all (pos n) os new)).0
        ≡ ok found)
      × (Dict.get found g ≡ (if successes == 0 && leb n failures then some tt else none))
unfolding blacklisted_gateways
blacklisted_iff n os o g one fits =
    let s : Store = record_all (pos n) os new in
    let counted = record_all-Counted n os new o g 0 0 one (omega arith) (new-Counted n o g one) in
    let counted' = simp zero-add at counted in
    (
      Dict.keys_where (λ summary. summary.blacklisted) (by_gateway s o),
      refl,
      get-keys_where (λ summary. summary.blacklisted) (by_gateway s o) g
          ∙ passes-flag (Dict.get (by_gateway s o) g)
          ∙ rw counted'.flag,
    )
