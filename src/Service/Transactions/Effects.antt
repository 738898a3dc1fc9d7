-- ===== src/Service/Transactions/Effects.antt =====
-- What `Initiate` of internal/service/transaction_service.go does to the gateways' states, over the
-- in-memory repository of those.
use payment_gateway_router.Common.{refl, not, String, Option, none, some, str_eq}
use payment_gateway_router.Go.Dict
use payment_gateway_router.Go.Dict.{Dict}
use payment_gateway_router.Action.{lift, on_error}
use payment_gateway_router.Action.Post.{
  Post, bind-Post, if-Post, step-Post, Post-state, state-Post, cleanup-Post,
}
use payment_gateway_router.Domain.Gateway.{GatewayRuntimeState}
use payment_gateway_router.Ports.{
  TransactionRepository, OrderGatewayBlacklistRepository, GatewayClientRegistry,
  PaymentGatewayClient,
}
use payment_gateway_router.Memory.Health
use payment_gateway_router.Service.World.{Deps, World, now, new_id}
use payment_gateway_router.Service.Blacklist as OrderBlacklist
use payment_gateway_router.Service.Health.Invariant.{Inv, Baseline, MayOpen, opens, opens-Moves}
use payment_gateway_router.Service.Health.Steps.{memory_deps}
use payment_gateway_router.Service.Health.Probing.{release_probe-Inv}
use payment_gateway_router.Service.Routing.{GatewaySelection, select_gateway}
use payment_gateway_router.Service.Routing.Effects.{select_gateway-Kept}
use payment_gateway_router.Service.Transactions.{
  InitiateTransactionInput, initiate, initiate_on, client_of, release_selected,
  blacklisted_gateways,
}

module _ {T B : Type 0} (transactions : TransactionRepository T) (gateways : GatewayClientRegistry)
    (before : Baseline) where
  excluded-Kept :
      (order_gateways : Option (OrderGatewayBlacklistRepository B)) (o : String)
      (w : World T Health.Store B)
      → Inv before w
      → Post
          (λ _ w'. Inv before w')
          (λ _ w'. Inv before w')
          (blacklisted_gateways (memory_deps transactions order_gateways gateways) o w)
  unfolding blacklisted_gateways OrderBlacklist.blacklisted_gateways
  excluded-Kept none o w h = h
  excluded-Kept (some repository) o w h =
      if-Post (λ _ w'. Inv before w') (λ _ w'. Inv before w') (str_eq o "") _ _ w (λ _. h)
        (λ _. state-Post (Inv before) _ _ h)

module _ {T B : Type 0} (transactions : TransactionRepository T)
    (order_gateways : Option (OrderGatewayBlacklistRepository B)) (gateways : GatewayClientRegistry)
    (before : Baseline) where
  abbrev deps : Deps T Health.Store B
  deps = memory_deps transactions order_gateways gateways

  abbrev Kept : {A : Type 0} → A → World T Health.Store B → Type 0
  Kept a w = Inv before w

  client-Kept :
      (c : Option PaymentGatewayClient) (w : World T Health.Store B)
      → Inv before w
      → Post Kept Kept (client_of deps c w)
  client-Kept none w h = h
  client-Kept (some c) w h = h

  initiate_on-Kept :
      (t : String) (input : InitiateTransactionInput) (selection : GatewaySelection)
      (w : World T Health.Store B)
      → Inv before w
      → Post Kept Kept (initiate_on deps t input selection w)
  unfolding initiate_on
  initiate_on-Kept t input selection w h =
      bind-Post Kept Kept Kept _ _ w (client-Kept (gateways selection.gateway.name) w h)
        (λ client w1 h1.
          bind-Post Kept Kept Kept _ _ w1 (state-Post (Inv before) _ _ h1) (λ attempt_no w2 h2.
            step-Post Kept Kept now _ _ _ w2 refl (
              bind-Post Kept Kept Kept (lift _) _ _ (state-Post (Inv before) _ _ h2)
                (λ initiation w4 h4.
                  bind-Post Kept Kept Kept _ _ w4 (state-Post (Inv before) _ _ h4)
                    (λ _ w5 h5. h5)))))

  release_selected-Kept :
      (t : String) (selection : GatewaySelection) (w : World T Health.Store B)
      → Inv before w
      → Post Kept Kept (release_selected deps selection t w)
  unfolding release_selected
  release_selected-Kept t selection w h =
      if-Post Kept Kept (not selection.half_open_probe) _ _ w (λ _. h)
        (λ _.
          release_probe-Inv transactions order_gateways gateways before selection.gateway.name t w
            h)

  initiate_or_release :
      (t : String) (input : InitiateTransactionInput) (selection : GatewaySelection)
      (w : World T Health.Store B)
      → Inv before w
      → Post Kept Kept (
          on_error
            (initiate_on deps t input selection)
            (λ cause. release_selected deps selection t)
            w)
  initiate_or_release t input selection w h =
      cleanup-Post (Inv before) (initiate_on deps t input selection)
        (λ cause. release_selected deps selection t) w (initiate_on-Kept t input selection w h)
        (λ cause w' h'. Post-state (Inv before) _ (release_selected-Kept t selection w' h'))

  initiate-Kept :
      (may_open : (g : String) → MayOpen before g) (input : InitiateTransactionInput)
      (w : World T Health.Store B)
      → Inv before w
      → Post Kept Kept (initiate deps input w)
  unfolding initiate
  initiate-Kept may_open input w h = step-Post Kept Kept new_id _ _ _ w refl (
      bind-Post Kept Kept Kept (blacklisted_gateways deps input.order_id) _ _
        (excluded-Kept transactions gateways before order_gateways input.order_id _ h)
        (λ excluded w1 h1.
          bind-Post Kept Kept Kept (select_gateway deps _) _ w1
            (select_gateway-Kept transactions order_gateways gateways before may_open _ w1 h1)
            (λ selection w2 h2. initiate_or_release _ input selection w2 h2)))

-- The states that gateways were in, of which the unhealthy may have been opened for probes since.
abbrev pub openings : Dict GatewayRuntimeState → Baseline
openings start = record { states = start; allows = λ _. opens }

module _ {T B : Type 0} (transactions : TransactionRepository T)
    (order_gateways : Option (OrderGatewayBlacklistRepository B))
    (gateways : GatewayClientRegistry) where
  -- Say that gateways are in order when every stored state bears its key, has an in-flight count
  -- equal to the number of its probes, and has probes only while half open, and every cached state
  -- equals the stored one. If they are, `Initiate`, whether it returns a transaction or an error,
  -- keeps them in order, forgets no gateway, and changes the state of a gateway known at the start
  -- only by opening an unhealthy one for probes.
  pub initiate-OpensOnly :
      (start : Dict GatewayRuntimeState) (input : InitiateTransactionInput)
      (w : World T Health.Store B)
      → Inv (openings start) w
      → Post
          (λ _ w'. Inv (openings start) w')
          (λ _ w'. Inv (openings start) w')
          (initiate (memory_deps transactions order_gateways gateways) input w)
  initiate-OpensOnly start input w h =
      initiate-Kept transactions order_gateways gateways (openings start)
        (λ g a b bad half k. opens-Moves (Dict.get start g) a b bad half k) input w h
