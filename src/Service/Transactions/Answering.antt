-- ===== src/Service/Transactions/Answering.antt =====
-- The verdicts on a callback, and the calls with which `Callback` of
-- internal/service/transaction_service.go answers an accepted or repeated one, over the in-memory
-- repositories.
use payment_gateway_router.Common.{
  ◌+◌, ◌≡◌, refl, String, true, false, not, ◌&&◌, Option, none, some, str_eq, if◌then◌else◌,
}
use payment_gateway_router.Go.Int.{ℤ}
use payment_gateway_router.Go.Time.{Time}
use payment_gateway_router.Go.Dict
use payment_gateway_router.Go.Dict.{Dict, get-put}
use payment_gateway_router.Action.Post.{Post, bind-Post, step-Post, Anything}
use payment_gateway_router.Domain.Errors.{
  Error, Result, ok, err, not_found, gateway_mismatch, conflict,
}
use payment_gateway_router.Domain.Transaction.{Transaction, TransactionStatus, is_final, status_eq}
use payment_gateway_router.Domain.Config.{with_defaults}
use payment_gateway_router.Ports.{GatewayClientRegistry}
use payment_gateway_router.Memory.Transactions
use payment_gateway_router.Memory.Transactions.Steps.{decided}
use payment_gateway_router.Memory.Health
use payment_gateway_router.Memory.Blacklist
use payment_gateway_router.Service.World.{Deps, World, now, on_blacklist, current_config}
use payment_gateway_router.Service.Blacklist as OrderBlacklist
use payment_gateway_router.Service.Health.{record_outcome, state_of, stats_of}
use payment_gateway_router.Service.Health.Steps.{memory_deps}
use payment_gateway_router.Service.Health.Totality.{
  Never, record_outcome-total, state_of-total, stats_of-total,
}
use payment_gateway_router.Service.Transactions.{
  CallbackInput, CallbackResult, answer_duplicate, process_outcome, record_for_order,
}

-- What becomes of a callback, by the transaction that is stored under its ID.
pub data Verdict : Type 0 where
  unknown mismatched contradicted : Verdict
  duplicate accepted : Transaction → Verdict

abbrev pub judged : Time → CallbackInput → Transaction → Verdict
judged at input t =
    if not (str_eq t.gateway input.gateway)
    then mismatched
    else if not (str_eq input.order_id "") && not (str_eq t.order_id input.order_id)
    then contradicted
    else if is_final t.status
    then (if status_eq t.status input.status then duplicate t else contradicted)
    else accepted (decided t input.status input.reason at)

abbrev pub verdict : Time → CallbackInput → Option Transaction → Verdict
verdict at input none = unknown
verdict at input (some t) = judged at input t

abbrev pub MemoryWorld : Type 0
MemoryWorld = World Transactions.Store Health.Store Blacklist.Store

-- Nothing that a repository stores has changed.
abbrev pub Untouched : MemoryWorld → MemoryWorld → Type 0
Untouched w w' =
    (w'.transactions ≡ w.transactions) × (w'.health ≡ w.health) × (w'.blacklist ≡ w.blacklist)

-- The results, and the errors, that go with a verdict.
abbrev pub Answer : String → Verdict → CallbackResult → MemoryWorld → Type 0
Answer id (duplicate t) result w' = (result.transaction ≡ t) × (result.idempotent ≡ true)
Answer id (accepted t) result w' =
    (result.transaction ≡ t)
    × (result.idempotent ≡ false)
    × (Dict.get w'.transactions.transactions id ≡ some t)
Answer id _ result w' = ⊥

abbrev pub Refusal : MemoryWorld → Verdict → Error → MemoryWorld → Type 0
Refusal w unknown e w' = (e ≡ not_found) × Untouched w w'
Refusal w mismatched e w' = (e ≡ gateway_mismatch) × Untouched w w'
Refusal w contradicted e w' = (e ≡ conflict) × Untouched w w'
Refusal w _ e w' = ⊥

module _ (gateways : GatewayClientRegistry) where
  abbrev pub deps : Deps Transactions.Store Health.Store Blacklist.Store
  deps = memory_deps Transactions.repository (some Blacklist.repository) gateways

  pub duplicate-total :
      (w0 : MemoryWorld) (id : String) (t : Transaction) (w : MemoryWorld)
      → Post (Answer id (duplicate t)) (Refusal w0 (duplicate t)) (answer_duplicate deps t w)
  unfolding answer_duplicate
  duplicate-total w0 id t w =
      bind-Post (λ _ w'. w'.transactions ≡ w.transactions) (Answer id (duplicate t)) Never
        (state_of deps t.gateway) _ w
        (state_of-total Transactions.repository (some Blacklist.repository) gateways t.gateway
          w.transactions w refl)
        (λ state w1 h1.
          bind-Post (λ _ w'. w'.transactions ≡ w.transactions) (Answer id (duplicate t)) Never
            (stats_of deps t.gateway) _ w1
            (stats_of-total Transactions.repository (some Blacklist.repository) gateways t.gateway
              w.transactions w1 h1)
            (λ stats w2 _. (refl, refl)))

  recorded-total :
      (o g : String) (status : TransactionStatus) (n : ℤ) (at : Time) (b : Blacklist.Store)
      → is_final status ≡ true
      → Post Anything Never (Blacklist.record_outcome o g status n at b)
  unfolding Blacklist.record_outcome
  recorded-total o g status n at b final = rw final tt

  on_blacklist-total :
      {A : Type 0} (t0 : Transactions.Store) (r : Result A × Blacklist.Store) (w : MemoryWorld)
      → Post Anything Never r
      → w.transactions ≡ t0
      → Post (λ _ w'. w'.transactions ≡ t0) Never (r.0, record w { blacklist = r.1 })
  on_blacklist-total t0 (ok a, b) w h same = same
  on_blacklist-total t0 (err e, b) w h same = absurd h

  order-total :
      (t0 : Transactions.Store) (t : Transaction) (w : MemoryWorld)
      → is_final t.status ≡ true
      → w.transactions ≡ t0
      → Post
          (λ _ w'. w'.transactions ≡ t0)
          Never
          (record_for_order deps (some Blacklist.repository) t w)
  unfolding OrderBlacklist.record_outcome
  order-total t0 t w final same =
      let Same = λ (_ : Unit {0}) (w' : MemoryWorld). w'.transactions ≡ t0 in
      let threshold =
        (with_defaults (w.configs w.config_reads)).routing.order_gateway_failure_threshold in
      let call =
        Blacklist.record_outcome t.order_id t.gateway t.status threshold (w.clock w.clock_reads) in
      let w2 : MemoryWorld = record w {
        clock_reads = w.clock_reads + 1;
        config_reads = w.config_reads + 1;
      } in
      step-Post Same Never current_config _ _ _ w refl (
        step-Post Same Never now _ w2 _ _ refl (
          bind-Post (λ _ w'. w'.transactions ≡ t0) Same Never (on_blacklist call) _ w2
            (on_blacklist-total t0 (call w.blacklist) w2
              (recorded-total t.order_id t.gateway t.status threshold (w.clock w.clock_reads)
                w.blacklist final)
              same)
            (λ _ w3 h3. h3)))

  pub accepted-total :
      (w0 : MemoryWorld) (id : String) (t : Transaction) (w : MemoryWorld)
      → is_final t.status ≡ true
      → Dict.get w.transactions.transactions id ≡ some t
      → Post (Answer id (accepted t)) (Refusal w0 (accepted t)) (process_outcome deps t w)
  unfolding process_outcome
  accepted-total w0 id t w final stored =
      bind-Post (λ _ w'. w'.transactions ≡ w.transactions) (Answer id (accepted t)) Never
        (record_outcome deps t.gateway t.id t.status) _ w
        (record_outcome-total Transactions.repository (some Blacklist.repository) gateways t.gateway
          w.transactions t.id t.status w refl)
        (λ (state, stats) w1 h1.
          bind-Post (λ _ w'. w'.transactions ≡ w.transactions) (Answer id (accepted t)) Never
            (record_for_order deps (some Blacklist.repository) t) _ w1
            (order-total w.transactions t w1 final h1) (λ _ w2 h2. (refl, refl, rw h2 stored)))
