-- ===== src/Memory/Transactions/Steps.antt =====
-- The in-memory transaction repository under any sequence of its calls.
use payment_gateway_router.Common.{
  ◌≡◌, refl, ◌∙◌, String, true, Option, none, some, List, [], ◌∷◌, arith, str_eq, eq_iff,
  Option-cases, inl, inr, if◌then◌else◌, ap, sym,
}
use payment_gateway_router.Go.Time.{Time}
use payment_gateway_router.Go.Dict
use payment_gateway_router.Go.Dict.{get-put}
use payment_gateway_router.Domain.Transaction.{Transaction, TransactionStatus, is_final}
use payment_gateway_router.Memory.Transactions.{Store, next_attempt, save, complete, completed}

-- The calls that change the store.
pub data Call : Type 0 where
  next_attempts : String → Call
  saves : Transaction → Call
  completes : String → TransactionStatus → String → Time → Call

abbrev pub step : Call → Store → Store
step (next_attempts order_id) s = (next_attempt order_id s).1
step (saves t) s = (save t s).1
step (completes transaction_id status reason at) s = (complete transaction_id status reason at s).1

abbrev pub run : List Call → Store → Store
run [] s = s
run (c ∷ cs) s = run cs (step c s)

abbrev pub find : Store → String → Option Transaction
find s transaction_id = Dict.get s.transactions transaction_id

-- What is fixed when a transaction is saved.
pub record SameOrigin (t u : Transaction) : Type 0 where
  pub id : t.id ≡ u.id
  pub order_id : t.order_id ≡ u.order_id
  pub attempt_no : t.attempt_no ≡ u.attempt_no
  pub amount : t.amount ≡ u.amount
  pub payment_instrument : t.payment_instrument ≡ u.payment_instrument
  pub gateway : t.gateway ≡ u.gateway
  pub gateway_reference_id : t.gateway_reference_id ≡ u.gateway_reference_id
  pub created_at : t.created_at ≡ u.created_at

-- A transaction that a callback decides: the status, the reason and the time are the callback's.
abbrev pub decided : Transaction → TransactionStatus → String → Time → Transaction
decided t new_status reason at = record t {
  status = new_status;
  failure_reason = reason;
  updated_at = at;
  completed_at = some at;
}

-- A transaction may still change only while its status is not final.
abbrev pub Evolves : Transaction → Option Transaction → Type 0
Evolves t none = ⊥
Evolves t (some u) = SameOrigin t u × (is_final t.status ≡ true → t ≡ u)

-- What `complete` makes of a stored transaction.
abbrev pub finish : TransactionStatus → String → Time → Option Transaction → Option Transaction
finish status reason at none = none
finish status reason at (some t) =
    if is_final status
    then if is_final t.status then some t else some (completed t status reason at)
    else some t

pub find-complete :
    (j i : String) (status : TransactionStatus) (reason : String) (at : Time) (s : Store)
    → find (complete j status reason at s).1 i
      ≡ (if str_eq j i then finish status reason at (find s i) else find s i)
unfolding complete
find-complete j i status reason at s = elim (Option-cases (find s j)) [
  | inl e ↦ ground (arith, eq_iff j i)
  | inr (t, e) ↦
      ground (arith, eq_iff j i, get-put s.transactions j i (completed t status reason at))
]

finish-Evolves :
    (status : TransactionStatus) (reason : String) (at : Time) (t : Transaction)
    → Evolves t (finish status reason at (some t))
finish-Evolves status reason at t = ground arith

pub step-Evolves :
    (c : Call) (s : Store) (transaction_id : String) {t : Transaction}
    → find s transaction_id ≡ some t
    → Evolves t (find (step c s) transaction_id)
unfolding next_attempt save
step-Evolves (next_attempts o) s i h = ground arith
step-Evolves (saves u) s i h = ground (arith, get-put s.transactions u.id i u, eq_iff u.id i)
step-Evolves (completes j status reason at) s i {t} h =
    rw (find-complete j i status reason at s, h) (ground (arith, finish-Evolves status reason at t))

SameOrigin-trans : {t u v : Transaction} → SameOrigin t u → SameOrigin u v → SameOrigin t v
SameOrigin-trans h k = record {
  id = h.id ∙ k.id;
  order_id = h.order_id ∙ k.order_id;
  attempt_no = h.attempt_no ∙ k.attempt_no;
  amount = h.amount ∙ k.amount;
  payment_instrument = h.payment_instrument ∙ k.payment_instrument;
  gateway = h.gateway ∙ k.gateway;
  gateway_reference_id = h.gateway_reference_id ∙ k.gateway_reference_id;
  created_at = h.created_at ∙ k.created_at;
}

Evolves-trans :
    {t u : Transaction} (o : Option Transaction)
    → SameOrigin t u × (is_final t.status ≡ true → t ≡ u)
    → Evolves u o
    → Evolves t o
Evolves-trans none h k = k
Evolves-trans {t} {u} (some v) h k =
    (SameOrigin-trans h.0 k.0, λ final. h.1 final ∙ k.1 (rw (← h.1 final) final))

pub found-Evolves :
    (t : Transaction) (o : Option Transaction)
    → Evolves t o
    → (u : Transaction) × (o ≡ some u) × (SameOrigin t u × (is_final t.status ≡ true → t ≡ u))
found-Evolves t none h = absurd h
found-Evolves t (some u) h = (u, refl, h)

-- A stored transaction is never lost, whatever calls follow: its ID, order, attempt number, amount,
-- payment instrument, gateway, gateway reference and creation time stay, and once its status is
-- final it does not change at all.
pub run-Evolves :
    (cs : List Call) (s : Store) (transaction_id : String) {t : Transaction}
    → find s transaction_id ≡ some t
    → Evolves t (find (run cs s) transaction_id)
run-Evolves [] s i h = rw h (ground arith)
run-Evolves (c ∷ cs) s i {t} h =
    let (u, e, k) = found-Evolves t (find (step c s) i) (step-Evolves c s i h) in
    Evolves-trans (find (run cs (step c s)) i) k (run-Evolves cs (step c s) i e)

pub run-final :
    (cs : List Call) (s : Store) (transaction_id : String) {t : Transaction}
    → find s transaction_id ≡ some t
    → is_final t.status ≡ true
    → find (run cs s) transaction_id ≡ some t
run-final cs s i {t} h final =
    let (u, e, k) = found-Evolves t (find (run cs s) i) (run-Evolves cs s i h) in
    e ∙ ap some (sym (k.1 final))
