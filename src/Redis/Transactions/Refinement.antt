-- ===== src/Redis/Transactions/Refinement.antt =====
-- internal/adapters/repository/redis/transaction_repository.go against its in-memory counterpart.
use payment_gateway_router.Common.{
  String, ◌≡◌, refl, true, Option, none, some, [], ◌∷◌, str_eq, Bool-cases, inl, inr,
}
use payment_gateway_router.Go.Time.{Time}
use payment_gateway_router.Go.Dict
use payment_gateway_router.Go.Dict.{get-put}
use payment_gateway_router.Domain.Errors.{Result, ok}
use payment_gateway_router.Domain.Transaction.{Transaction, TransactionStatus, is_final}
use payment_gateway_router.Memory.Transactions as Memory
use payment_gateway_router.Memory.Transactions.{completed}
use payment_gateway_router.Redis.Key.Splitting.{Plain, key_eq, second_part}
use payment_gateway_router.Redis.Client.{Store, Setting}
use payment_gateway_router.Redis.Server.{Formats, FormatsLaws, IsDated, Table}
use payment_gateway_router.Redis.Json.{status_text}
use payment_gateway_router.Redis.Json.Reading.{final_spelled, Reads}
use payment_gateway_router.Redis.Transactions.{transaction_key, rewritten}

-- The script's assignments are those of a completion.
pub rewritten-Reads :
    (formats : Formats) (table : Table) (t : Transaction) (status : TransactionStatus)
    (reason : String) (at : Time)
    → FormatsLaws formats
    → is_final status ≡ true
    → IsDated at
    → Reads formats table t
    → Reads formats
        (rewritten table (status_text status) reason (formats.format_time at))
        (completed t status reason at)
rewritten-Reads formats table t status reason at laws final dated r = record {
  id = r.id;
  order_id = r.order_id;
  attempt_no = r.attempt_no;
  amount = r.amount;
  payment_instrument = r.payment_instrument;
  gateway = r.gateway;
  gateway_reference_id = r.gateway_reference_id;
  status = refl;
  spelled = final_spelled status final;
  failure_reason = refl;
  created_at = r.created_at;
  updated_at = laws.parse_time-format_time at dated;
  completed_at = rw (laws.parse_time-format_time at dated) refl;
}

module _ {S V : Type 0} (store : Store S V) (setting : Setting store) where
  -- A payload that stands for a transaction.
  abbrev pub StandsFor : V → Transaction → Type 0
  StandsFor v t =
      (table : Table) × (store.json.parse v ≡ ok table)
      × (store.json.decode v ≡ ok table)
      × setting.Exact table
      × Reads store.formats table t

  abbrev pub Agree : Option Transaction → Option V → Type 0
  Agree none none = Unit
  Agree (some t) (some v) = StandsFor v t
  Agree _ _ = ⊥

  abbrev pub stored_at : S → String → Option V
  stored_at s id = setting.server.stored s (transaction_key store id)

  -- The server holds what the map of the in-memory repository holds.
  abbrev pub Related : Memory.Store → S → Type 0
  Related m s = (id : String) → Plain id → Agree (Dict.get m.transactions id) (stored_at s id)

  -- The same answer, and related stores after it.
  abbrev pub Refines : {A : Type 0} → Result A × Memory.Store → Result A × S → Type 0
  Refines (r, m) (r', s) = (r' ≡ r) × Related m s

  pub to_Refines :
      {A : Type 0} (x : Result A × Memory.Store) (y : Result A × S) (r : Result A)
      (m : Memory.Store) (s : S)
      → x ≡ (r, m)
      → y ≡ (r, s)
      → Related m s
      → Refines x y
  to_Refines x y r m s e f related = rw (e, f) (refl, related)

  transaction_key_eq :
      (id id' : String)
      → Plain id
      → Plain id'
      → str_eq (transaction_key store id) (transaction_key store id') ≡ str_eq id id'
  unfolding second_part
  transaction_key_eq id id' h k =
      key_eq store.key_prefix (λ z. "transaction" ∷ z ∷ []) second_part id id' (λ z. refl)
        (setting.prefixed, ((refl, refl), (h, tt))) (setting.prefixed, ((refl, refl), (k, tt)))

  pub put-Related :
      (m : Memory.Store) (s : S) (id : String) (t : Transaction) (v : V)
      → Related m s
      → Plain id
      → StandsFor v t
      → Related
          (record m { transactions = Dict.put m.transactions id t })
          (setting.server.store (transaction_key store id) v s)
  put-Related m s id t v h plain stands id' named = elim (Bool-cases (str_eq id id')) [
    | inl e ↦
        rw (get-put, setting.server.stored-store, transaction_key_eq id id' plain named, e) stands
    | inr e ↦
        rw (get-put, setting.server.stored-store, transaction_key_eq id id' plain named, e)
          (h id' named)
  ]
