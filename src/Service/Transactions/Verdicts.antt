-- ===== src/Service/Transactions/Verdicts.antt =====
-- What `Callback` of internal/service/transaction_service.go answers, over the in-memory
-- repositories.
use payment_gateway_router.Common.{
  ◌+◌, ◌≡◌, refl, String, true, false, not, ◌&&◌, none, some, str_eq, eq_refl, if◌then◌else◌,
  Bool-cases, Option-cases, inl, inr,
}
use payment_gateway_router.Go.Time.{Time}
use payment_gateway_router.Go.Dict
use payment_gateway_router.Go.Dict.{Dict, get-put}
use payment_gateway_router.Action.{Action, ◌>>=◌, ◌>>◌, lift}
use payment_gateway_router.Action.Post.{Post, step-Post, fail-Post}
use payment_gateway_router.Domain.Errors.{ok, err, fail_if, not_found, gateway_mismatch, conflict}
use payment_gateway_router.Domain.Transaction.{Transaction, is_final, status_eq}
use payment_gateway_router.Ports.{GatewayClientRegistry}
use payment_gateway_router.Memory.Transactions
use payment_gateway_router.Memory.Transactions.Steps.{decided}
use payment_gateway_router.Memory.Health
use payment_gateway_router.Memory.Blacklist
use payment_gateway_router.Service.World.{now, on_transactions}
use payment_gateway_router.Service.Transactions.{
  CallbackInput, CallbackResult, callback, answer_duplicate, process_outcome,
}
use payment_gateway_router.Service.Transactions.Answering.{
  Verdict, unknown, mismatched, contradicted, duplicate, accepted, judged, verdict, MemoryWorld,
  Untouched, Answer, Refusal, deps, duplicate-total, accepted-total,
}

module _ (gateways : GatewayClientRegistry) where
  get_by_id-found :
      (id : String) (t : Transaction) (w : MemoryWorld)
      → Dict.get w.transactions.transactions id ≡ some t
      → on_transactions {H = Health.Store} {B = Blacklist.Store} (Transactions.get_by_id id) w
        ≡ (ok t, w)
  unfolding Transactions.get_by_id
  get_by_id-found id t w e = rw (Transactions.get_by_id, e)

  get_by_id-missing :
      (id : String) (w : MemoryWorld)
      → Dict.get w.transactions.transactions id ≡ none
      → on_transactions {H = Health.Store} {B = Blacklist.Store} (Transactions.get_by_id id) w
        ≡ (err not_found, w)
  unfolding Transactions.get_by_id
  get_by_id-missing id w e = rw (Transactions.get_by_id, e)

  -- What `Callback` does from `Complete` on.
  abbrev finish : CallbackInput → Time → Action MemoryWorld CallbackResult
  finish input at =
      on_transactions
        ((deps gateways).transactions.complete input.transaction_id input.status input.reason at)
      >>= λ (t, changed).
          if not changed
          then answer_duplicate (deps gateways) t
          else process_outcome (deps gateways) t

  abbrev final_verdict : Time → CallbackInput → Transaction → Verdict
  final_verdict at input t =
      if is_final t.status
      then (if status_eq t.status input.status then duplicate t else contradicted)
      else accepted (decided t input.status input.reason at)

  finish-verdict :
      (input : CallbackInput) (at : Time) (t : Transaction) (w0 w : MemoryWorld)
      → is_final input.status ≡ true
      → Dict.get w.transactions.transactions input.transaction_id ≡ some t
      → Untouched w0 w
      → Post
          (Answer input.transaction_id (final_verdict at input t))
          (Refusal w0 (final_verdict at input t))
          (finish input at w)
  unfolding Transactions.complete
  finish-verdict input at t w0 w final e same = elim (Bool-cases (is_final t.status)) [
    | inl done ↦ elim (Bool-cases (status_eq t.status input.status)) [
      | inl equal ↦
          rw (done, equal)
            (step-Post (Answer input.transaction_id (duplicate t)) (Refusal w0 (duplicate t))
              (on_transactions _) (t, false) w _ w (rw (final, e, done, equal))
              (duplicate-total gateways w0 input.transaction_id t w))
      | inr different ↦
          rw (done, different)
            (fail-Post (Answer input.transaction_id contradicted) (Refusal w0 contradicted)
              (on_transactions _) conflict w _ w (rw (final, e, done, different)) (refl, same))
    ]
    | inr unfinished ↦
        let t' = decided t input.status input.reason at in
        let w' = record w {
          transactions = record w.transactions {
            transactions = Dict.put w.transactions.transactions input.transaction_id t';
          };
        } in
        rw unfinished (
          step-Post (Answer input.transaction_id (accepted t')) (Refusal w0 (accepted t'))
            (on_transactions _) (t', true) w' _ w (rw (final, e, unfinished))
            (accepted-total gateways w0 input.transaction_id t' w' final
              (rw (get-put, eq_refl input.transaction_id) refl)))
  ]

  stored-verdict :
      (input : CallbackInput) (t : Transaction) (w : MemoryWorld)
      → is_final input.status ≡ true
      → Dict.get w.transactions.transactions input.transaction_id ≡ some t
      → let v = judged (w.clock w.clock_reads) input t in
        Post (Answer input.transaction_id v) (Refusal w v) (
          (lift (fail_if (not (str_eq t.gateway input.gateway)) gateway_mismatch)
              >> (lift (
                    fail_if
                      (not (str_eq input.order_id "") && not (str_eq t.order_id input.order_id))
                      conflict)
                  >> (now >>= finish input)))
            w)
  stored-verdict input t w final e = elim (Bool-cases (not (str_eq t.gateway input.gateway))) [
    | inl elsewhere ↦ rw elsewhere (
        fail-Post (Answer input.transaction_id mismatched) (Refusal w mismatched)
          (lift (err gateway_mismatch)) gateway_mismatch w _ w refl (refl, (refl, refl, refl)))
    | inr here ↦
        elim (Bool-cases
          (not (str_eq input.order_id "") && not (str_eq t.order_id input.order_id))) [
            | inl other_order ↦
                rw (here, other_order)
                  (step-Post (Answer input.transaction_id contradicted) (Refusal w contradicted)
                    (lift (ok tt)) tt w _ w refl
                    (fail-Post (Answer input.transaction_id contradicted) (Refusal w contradicted)
                      (lift (err conflict)) conflict w _ w refl (refl, (refl, refl, refl))))
            | inr same_order ↦
                let v = final_verdict (w.clock w.clock_reads) input t in
                rw (here, same_order)
                  (step-Post (Answer input.transaction_id v) (Refusal w v) (lift (ok tt)) tt w _ w
                    refl
                    (step-Post (Answer input.transaction_id v) (Refusal w v) (lift (ok tt)) tt w _ w
                      refl
                      (step-Post (Answer input.transaction_id v) (Refusal w v) now
                        (w.clock w.clock_reads) (record w { clock_reads = w.clock_reads + 1 }) _ w
                        refl
                        (finish-verdict input (w.clock w.clock_reads) t w
                          (record w { clock_reads = w.clock_reads + 1 }) final e
                          (refl, refl, refl)))))
          ]
  ]

  -- A callback with a final status, over the in-memory repositories, always ends in one of six ways,
  -- decided by the stored transaction alone: none is stored (not found), it belongs to another
  -- gateway (gateway mismatch), the callback names another order or the other final status than the
  -- stored one (conflict); it repeats the stored final status (answered with the stored transaction,
  -- as a duplicate); or the transaction is completed with the callback's status and reason, stored
  -- so, and answered as new. A refused callback changes no repository.
  pub callback-verdict :
      (input : CallbackInput) (w : MemoryWorld)
      → is_final input.status ≡ true
      → let at = w.clock w.clock_reads in
        let v = verdict at input (Dict.get w.transactions.transactions input.transaction_id) in
        Post (Answer input.transaction_id v) (Refusal w v) (callback (deps gateways) input w)
  unfolding callback
  callback-verdict input w final =
      elim (Option-cases (Dict.get w.transactions.transactions input.transaction_id)) [
        | inl e ↦ rw e (
            fail-Post (Answer input.transaction_id unknown) (Refusal w unknown)
              (on_transactions (Transactions.get_by_id input.transaction_id)) not_found w _ w
              (get_by_id-missing input.transaction_id w e) (refl, (refl, refl, refl)))
        | inr (t, e) ↦ rw e (
            step-Post (Answer input.transaction_id (judged (w.clock w.clock_reads) input t))
              (Refusal w (judged (w.clock w.clock_reads) input t))
              (on_transactions (Transactions.get_by_id input.transaction_id)) t w _ w
              (get_by_id-found input.transaction_id t w e) (stored-verdict input t w final e))
      ]
