-- ===== src/Redis/Transactions.antt =====
-- internal/adapters/repository/redis/transaction_repository.go
pub mod Refinement
pub mod Completing
pub mod Saving
pub mod Equivalence
use payment_gateway_router.Common.{
  String, Bool, true, false, not, ◌||◌, Option, none, some, List, [], ◌∷◌, str_eq, if◌then◌else◌,
}
use payment_gateway_router.Go.Int.{ℤ}
use payment_gateway_router.Go.Time.{Time}
use payment_gateway_router.Action.{Action, pure, raise, lift, ◌>>=◌, ◌>>◌}
use payment_gateway_router.Domain.Errors.{
  Error, Result, ok, err, conflict, not_found, invalid_status, message, fail_if,
}
use payment_gateway_router.Domain.Transaction.{Transaction, TransactionStatus, is_final}
use payment_gateway_router.Ports.{TransactionRepository}
use payment_gateway_router.Redis.Key.{key}
use payment_gateway_router.Redis.Json.{marshal, decode_transaction, status_text}
use payment_gateway_router.Redis.Client.{Store}
use payment_gateway_router.Redis.Server.{Member, text, Reply, word, payload, Table, with_member}

-- `txn["status"] == word` of Lua
abbrev pub is_text : Option Member → String → Bool
is_text (some (text s)) t = str_eq s t
is_text _ t = false

-- The word that a script replies with for a member, which is a text where it is reached.
abbrev pub word_of : {V : Type 0} → Option Member → List (Reply V)
word_of (some (text s)) = word s ∷ []
word_of _ = []

-- The four assignments of the script.
abbrev pub rewritten : Table → String → String → String → Table
rewritten table status reason at =
    with_member
      (with_member
        (with_member (with_member table "status" (text status)) "failure_reason" (text reason))
        "updated_at" (text at))
      "completed_at" (text at)

module _ {S V : Type 0} (store : Store S V) where
  abbrev pub transaction_key : String → String
  transaction_key transaction_id = key store.key_prefix ("transaction" ∷ transaction_id ∷ [])

  unfoldable pub next_attempt : String → Action S ℤ
  next_attempt order_id =
      store.client.incr (key store.key_prefix ("order" ∷ order_id ∷ "attempt" ∷ []))

  unfoldable pub save : Transaction → Action S (Unit {0})
  save t = do
    stored ← lift (marshal store.formats store.json t)
    created ← store.client.set_nx (transaction_key t.id) stored
    lift (fail_if (not created) conflict)

  -- `get`, for what `GET` answered.
  abbrev pub read_stored : Option V → Result Transaction
  read_stored none = err not_found
  read_stored (some stored) = decode_transaction store.formats store.json stored

  unfoldable pub get_by_id : String → Action S Transaction
  get_by_id transaction_id = do
    found ← store.client.get (transaction_key transaction_id)
    lift (read_stored found)

  -- `completeTransactionScript` once the payload is decoded.
  unfoldable pub complete_decoded :
      String → String → String → String → V → Table → Action S (List (Reply V))
  complete_decoded at_key status reason at raw txn =
      if is_text (txn "status") "success" || is_text (txn "status") "failure"
      then if is_text (txn "status") status
        then pure (word "idempotent" ∷ payload raw ∷ [])
        else pure (word "conflict" ∷ word_of (txn "status"))
      else (do
        let updated = store.json.encode (rewritten txn status reason at)
        store.client.set at_key updated
        pure (word "changed" ∷ payload updated ∷ []))

  abbrev pub complete_found :
      String → String → String → String → Option V → Action S (List (Reply V))
  complete_found at_key status reason at none = pure (word "not_found" ∷ [])
  complete_found at_key status reason at (some raw) = do
    txn ← lift (store.json.decode raw)
    complete_decoded at_key status reason at raw txn

  -- `completeTransactionScript`
  unfoldable pub complete_script : String → String → String → String → Action S (List (Reply V))
  complete_script at_key status reason at = do
    found ← store.client.get at_key
    complete_found at_key status reason at found

  -- `decodeTransaction([]byte(fmt.Sprint(result[1])))`: only a payload is a JSON object.
  abbrev pub read_payload : List (Reply V) → Result Transaction
  read_payload [] = err (message "missing transaction payload for redis complete response")
  read_payload (payload stored ∷ _) = decode_transaction store.formats store.json stored
  read_payload (_ ∷ _) = err (message "json: cannot unmarshal into a transaction")

  abbrev pub with_change : Bool → Result Transaction → Result (Transaction × Bool)
  with_change changed (ok t) = ok (t, changed)
  with_change changed (err e) = err e

  -- The `switch` on the code.
  abbrev pub read_reply : List (Reply V) → Result (Transaction × Bool)
  read_reply (word code ∷ rest) =
      if str_eq code "not_found"
      then err not_found
      else if str_eq code "conflict"
      then err conflict
      else if str_eq code "changed" || str_eq code "idempotent"
      then with_change (str_eq code "changed") (read_payload rest)
      else err (message "unexpected redis complete code")
  read_reply (_ ∷ rest) = err (message "unexpected redis complete code")
  read_reply [] = err (message "unexpected redis complete response")

  unfoldable pub complete :
      String → TransactionStatus → String → Time → Action S (Transaction × Bool)
  complete transaction_id status reason completed_at =
      if not (is_final status) then raise invalid_status else (do
        result ← store.client.run (
            complete_script (transaction_key transaction_id) (status_text status) reason
              (store.formats.format_time completed_at))
        lift (read_reply result))

  abbrev pub repository : TransactionRepository S
  repository = record {
    next_attempt = next_attempt;
    save = save;
    get_by_id = get_by_id;
    complete = complete;
  }
