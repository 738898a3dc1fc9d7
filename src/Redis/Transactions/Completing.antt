-- ===== src/Redis/Transactions/Completing.antt =====
-- `Complete` of internal/adapters/repository/redis/transaction_repository.go against its in-memory
-- counterpart.
use payment_gateway_router.Common.{
  String, ◌≡◌, refl, ap, true, false, ◌||◌, none, some, List, [], ◌∷◌, ◌∙◌,
}
use payment_gateway_router.Go.Time.{Time}
use payment_gateway_router.Action.{lift}
use payment_gateway_router.Action.Post.{bind_ok}
use payment_gateway_router.Domain.Errors.{ok}
use payment_gateway_router.Domain.Transaction.{Transaction, TransactionStatus, is_final, status_eq}
use payment_gateway_router.Memory.Transactions.{completed}
use payment_gateway_router.Redis.Client.{Store, Setting}
use payment_gateway_router.Redis.Server.{IsDated, Table, Reply, word, payload}
use payment_gateway_router.Redis.Json.{status_text, decode_transaction}
use payment_gateway_router.Redis.Json.Reading.{
  Reads, transaction_of-Reads, text_is_final, text_is_status,
}
use payment_gateway_router.Redis.Transactions.{
  transaction_key, rewritten, is_text, complete_script, complete_decoded, complete, read_reply,
}
use payment_gateway_router.Redis.Transactions.Refinement.{rewritten-Reads, StandsFor, stored_at}

module _ {S V : Type 0} (store : Store S V) (setting : Setting store) where
  -- What `Complete` makes of the script's reply.
  pub replied :
      (id : String) (status : TransactionStatus) (reason : String) (at : Time) (s s' : S)
      (reply : List (Reply V))
      → is_final status ≡ true
      → complete_script store
          (transaction_key store id)
          (status_text status)
          reason
          (store.formats.format_time at)
          s
        ≡ (ok reply, s')
      → complete store id status reason at s ≡ (read_reply store reply, s')
  unfolding complete
  replied id status reason at s s' reply final e =
      rw final (bind_ok _ _ s s' reply (setting.server.run-script _ s ∙ e))

  pub script_found :
      (id status reason at : String) (s : S) (v : V) (table : Table)
      → stored_at store setting s id ≡ some v
      → store.json.decode v ≡ ok table
      → let at_key = transaction_key store id in
        complete_script store at_key status reason at s
        ≡ complete_decoded store at_key status reason at v table s
  unfolding complete_script
  script_found id status reason at s v table found decoded =
      bind_ok (store.client.get (transaction_key store id)) _ s s (some v)
        (rw (setting.server.get-stored, found) refl)
      ∙ bind_ok (lift (store.json.decode v)) _ s s table (rw decoded refl)

  pub script_missing :
      (id status reason at : String) (s : S)
      → stored_at store setting s id ≡ none
      → let at_key = transaction_key store id in
        complete_script store at_key status reason at s ≡ (ok (word "not_found" ∷ []), s)
  unfolding complete_script
  script_missing id status reason at s found =
      bind_ok (store.client.get (transaction_key store id)) _ s s none
        (rw (setting.server.get-stored, found) refl)

  pub decode_transaction-StandsFor :
      (v : V) (t : Transaction)
      → StandsFor store setting v t
      → decode_transaction store.formats store.json v ≡ ok t
  unfolding decode_transaction
  decode_transaction-StandsFor v t (table, parsed, decoded, exact, reads) =
      rw parsed (transaction_of-Reads store.formats table t reads)

  pub updated-StandsFor :
      (t : Transaction) (table : Table) (status : TransactionStatus) (reason : String) (at : Time)
      → is_final status ≡ true
      → IsDated at
      → setting.Exact table
      → Reads store.formats table t
      → StandsFor store setting
          (store.json.encode
            (rewritten table (status_text status) reason (store.formats.format_time at)))
          (completed t status reason at)
  updated-StandsFor t table status reason at final dated exact reads =
      let table' : Table =
        rewritten table (status_text status) reason (store.formats.format_time at) in
      let kept : setting.Exact table' = setting.exact.with_text _ "completed_at" _ (
        setting.exact.with_text _ "updated_at" _ (
          setting.exact.with_text _ "failure_reason" _
            (setting.exact.with_text table "status" (status_text status) exact))) in
      (
        table',
        setting.exact.parse-encode table' kept,
        setting.exact.decode-encode table' kept,
        kept,
        rewritten-Reads store.formats table t status reason at setting.laws final dated reads,
      )

  module _ (t : Transaction) (table : Table) (reads : Reads store.formats table t) where
    final_test :
        (is_text (table "status") "success" || is_text (table "status") "failure")
        ≡ is_final t.status
    final_test = rw reads.status (text_is_final (status_text t.status) ∙ ap is_final reads.spelled)

    same_test :
        (status : TransactionStatus)
        → is_final status ≡ true
        → is_text (table "status") (status_text status) ≡ status_eq t.status status
    same_test status final = rw reads.status (
        text_is_status (status_text t.status) status final
        ∙ ap (λ u. status_eq u status) reads.spelled)

    pub decoded_duplicate :
        (at_key : String) (status : TransactionStatus) (reason at : String) (v : V) (s : S)
        → is_final status ≡ true
        → is_final t.status ≡ true
        → status_eq t.status status ≡ true
        → complete_decoded store at_key (status_text status) reason at v table s
          ≡ (ok (word "idempotent" ∷ payload v ∷ []), s)
    unfolding complete_decoded
    decoded_duplicate at_key status reason at v s final done same =
        rw (final_test ∙ done, same_test status final ∙ same) refl

    pub decoded_conflict :
        (at_key : String) (status : TransactionStatus) (reason at : String) (v : V) (s : S)
        → is_final status ≡ true
        → is_final t.status ≡ true
        → status_eq t.status status ≡ false
        → complete_decoded store at_key (status_text status) reason at v table s
          ≡ (ok (word "conflict" ∷ word (status_text t.status) ∷ []), s)
    unfolding complete_decoded
    decoded_conflict at_key status reason at v s final done different =
        rw (final_test ∙ done, same_test status final ∙ different, reads.status) refl

    pub decoded_change :
        (at_key status reason at : String) (v : V) (s : S)
        → is_final t.status ≡ false
        → let updated = store.json.encode (rewritten table status reason at) in
          complete_decoded store at_key status reason at v table s
          ≡ (ok (word "changed" ∷ payload updated ∷ []), setting.server.store at_key updated s)
    unfolding complete_decoded
    decoded_change at_key status reason at v s unfinished = rw (final_test ∙ unfinished) (
        bind_ok (store.client.set at_key (store.json.encode (rewritten table status reason at))) _ s
          _ tt (setting.server.set-store at_key _ s))
