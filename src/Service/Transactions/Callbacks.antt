-- ===== src/Service/Transactions/Callbacks.antt =====
-- `Callback` of internal/service/transaction_service.go, over the in-memory repository of the
-- gateways' states: whose state it moves.
use payment_gateway_router.Common.{◌≡◌, refl, true, not, String, Option, none, some}
use payment_gateway_router.Go.Dict.{Dict}
use payment_gateway_router.Action.{lift}
use payment_gateway_router.Action.Post.{Post, Post-mono, bind-Post, if-Post, step-Post, state-Post}
use payment_gateway_router.Domain.Errors.{Error, Result, ok, err}
use payment_gateway_router.Domain.Gateway.{GatewayRuntimeState}
use payment_gateway_router.Domain.Transaction.{Transaction}
use payment_gateway_router.Ports.{
  TransactionRepository, OrderGatewayBlacklistRepository, GatewayClientRegistry,
}
use payment_gateway_router.Memory.Health
use payment_gateway_router.Service.World.{Deps, World, now, on_blacklist, current_config}
use payment_gateway_router.Service.Blacklist as OrderBlacklist
use payment_gateway_router.Service.Health.{record_outcome, state_of, stats_of}
use payment_gateway_router.Service.Health.Invariant.{Inv, Baseline}
use payment_gateway_router.Service.Health.Steps.{memory_deps, Settled, Broken}
use payment_gateway_router.Service.Health.Probing.{state_of-Settled}
use payment_gateway_router.Service.Health.Branches.{unmoved, one_outcome}
use payment_gateway_router.Service.Health.Outcome.{record_outcome-Recorded, Recorded, Failed, widen}
use payment_gateway_router.Service.Transactions.{
  CallbackInput, CallbackResult, record_for_order, callback, answer_duplicate, process_outcome,
}

module _ {T B : Type 0} (before : Baseline) where
  order-Kept :
      (order_gateways : Option (OrderGatewayBlacklistRepository B)) (deps : Deps T Health.Store B)
      (t : Transaction) (w : World T Health.Store B)
      → Inv before w
      → Post
          (λ _ w'. Inv before w')
          (λ _ w'. Inv before w')
          (record_for_order deps order_gateways t w)
  unfolding OrderBlacklist.record_outcome
  order-Kept none deps t w h = h
  order-Kept (some repository) deps t w h =
      let K = λ (_ : Unit {0}) (w' : World T Health.Store B). Inv before w' in
      let F = λ (_ : Error) (w' : World T Health.Store B). Inv before w' in
      step-Post K F current_config _ _ _ w refl (
        step-Post K F now _ _ _ _ refl (
          bind-Post (λ _ w'. Inv before w') K F (on_blacklist _) _ _ (state-Post (Inv before) _ _ h)
            (λ _ w2 h2. h2)))

module _ {T B : Type 0} (transactions : TransactionRepository T)
    (order_gateways : Option (OrderGatewayBlacklistRepository B)) (gateways : GatewayClientRegistry)
    (start : Dict GatewayRuntimeState) where
  abbrev deps : Deps T Health.Store B
  deps = memory_deps transactions order_gateways gateways

  -- At most the transaction's gateway has moved, by one outcome, and no gateway on a duplicate.
  abbrev pub Answered : CallbackResult → World T Health.Store B → Type 0
  Answered result w =
      Inv (one_outcome result.transaction.gateway start) w
      × (result.idempotent ≡ true → Inv (unmoved start) w)

  -- At most one gateway has moved, by one outcome.
  abbrev pub Failing : Error → World T Health.Store B → Type 0
  Failing e w = (g : String) × Inv (one_outcome g start) w

  abbrev Quiet : {A : Type 0} → A → World T Health.Store B → Type 0
  Quiet a w = Inv (unmoved start) w

  widened :
      (g : String) (w : World T Health.Store B)
      → Inv (unmoved start) w
      → Inv (one_outcome g start) w
  widened g w h j = widen transactions order_gateways gateways g start j w (h j)

  quiet :
      {A : Type 0} (r : Result A) (w : World T Health.Store B)
      → Inv (unmoved start) w
      → Post Quiet Failing (r, w)
  quiet (ok a) w h = h
  quiet (err e) w h = ("", widened "" w h)

  stats_of-Quiet :
      (g : String) (w : World T Health.Store B)
      → Inv (unmoved start) w
      → Post Quiet Failing (stats_of deps g w)
  unfolding stats_of Health.stats_since
  stats_of-Quiet g w h =
      step-Post Quiet Failing current_config _ _ _ w refl
        (step-Post Quiet Failing now _ _ _ _ refl h)

  answer_duplicate-Answered :
      (t : Transaction) (w : World T Health.Store B)
      → Inv (unmoved start) w
      → Post Answered Failing (answer_duplicate deps t w)
  unfolding answer_duplicate
  answer_duplicate-Answered t w h =
      bind-Post (λ state w'. Settled (unmoved start) t.gateway state w') Answered Failing
        (state_of deps t.gateway) _ w
        (Post-mono (λ state w'. Settled (unmoved start) t.gateway state w')
          (λ state w'. Settled (unmoved start) t.gateway state w') (Broken (unmoved start)) Failing
          _ (state_of-Settled transactions order_gateways gateways (unmoved start) t.gateway w h)
          (λ _ _ k. k) (λ e w' k. (t.gateway, widened t.gateway w' k)))
        (λ state w1 h1.
          bind-Post Quiet Answered Failing (stats_of deps t.gateway) _ w1
            (stats_of-Quiet t.gateway w1 h1.0) (λ stats w2 h2. (widened t.gateway w2 h2, λ _. h2)))

  process_outcome-Answered :
      (t : Transaction) (w : World T Health.Store B)
      → Inv (unmoved start) w
      → Post Answered Failing (process_outcome deps t w)
  unfolding process_outcome
  process_outcome-Answered t w h =
      let b = one_outcome t.gateway start in
      bind-Post (Recorded transactions order_gateways gateways t.gateway start) Answered Failing
        (record_outcome deps t.gateway t.id t.status) _ w
        (Post-mono (Recorded transactions order_gateways gateways t.gateway start)
          (Recorded transactions order_gateways gateways t.gateway start)
          (Failed transactions order_gateways gateways t.gateway start) Failing _
          (record_outcome-Recorded transactions order_gateways gateways t.gateway start t.id
            t.status w h)
          (λ _ _ k. k) (λ e w' k. (t.gateway, k)))
        (λ (state, stats) w1 h1.
          bind-Post (λ _ w'. Inv b w') Answered Failing (record_for_order deps order_gateways t) _
            w1
            (Post-mono (λ _ w'. Inv b w') (λ _ w'. Inv b w') (λ _ w'. Inv b w') Failing _
              (order-Kept b order_gateways deps t w1 h1.0) (λ _ _ k. k) (λ e w' k. (t.gateway, k)))
            (λ _ w2 h2. (h2, λ e. cc e)))

  -- If gateways are in order (each stored state bears its key, counts its probes and has probes
  -- only while half open, each cached state is the stored one), a callback keeps them so. Of the
  -- gateways known at the start, one that returns has moved at most its transaction's, by one step
  -- of the circuit breaker, and none where it was a duplicate; one that fails has moved at most
  -- one, by one step.
  pub callback-Answered :
      (input : CallbackInput) (w : World T Health.Store B)
      → Inv (unmoved start) w
      → Post Answered Failing (callback deps input w)
  unfolding callback
  callback-Answered input w h = bind-Post Quiet Answered Failing _ _ w (quiet _ _ h) (λ found w1 h1.
      bind-Post Quiet Answered Failing (lift _) _ w1 (quiet _ _ h1) (λ _ w2 h2.
        bind-Post Quiet Answered Failing (lift _) _ w2 (quiet _ _ h2) (λ _ w3 h3.
          step-Post Answered Failing now _ _ _ w3 refl (
            bind-Post Quiet Answered Failing _ _ _ (quiet _ _ h3) (λ (t, changed) w4 h4.
              if-Post Answered Failing (not changed) _ _ w4 (λ _. answer_duplicate-Answered t w4 h4)
                (λ _. process_outcome-Answered t w4 h4))))))
