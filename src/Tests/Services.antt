-- ===== src/Tests/Services.antt =====
-- The services at a concrete world: one gateway half open with a probe in flight, one order with two
-- failures of another.
use payment_gateway_router.Memory.Blacklist.{blacklisted_gateways}
use payment_gateway_router.Common.{
  ◌≡◌, refl, Bool, true, false, none, some, [], ◌∷◌, arith, str_eq, eq_iff, Bool-cases, inl, inr,
}
use payment_gateway_router.Go.Int.{pos}
use payment_gateway_router.Go.Float64
use payment_gateway_router.Go.Time
use payment_gateway_router.Go.Dict
use payment_gateway_router.Go.Dict.{Dict, get-put, get-empty}
use payment_gateway_router.Action.Post.{Post, Anything}
use payment_gateway_router.Domain.Errors.{Result, ok, err}
use payment_gateway_router.Domain.Transaction.{success}
use payment_gateway_router.Domain.Gateway.{GatewayRuntimeState, half_open}
use payment_gateway_router.Ports.{GatewayClientRegistry}
use payment_gateway_router.Memory.Transactions
use payment_gateway_router.Memory.Health
use payment_gateway_router.Memory.Blacklist
use payment_gateway_router.Memory.Blacklist.History.{record_all}
use payment_gateway_router.Service.World.{World, Deps, CachedGatewayState}
use payment_gateway_router.Service.Health.{
  record_outcome, transition, save_state, after_probe, prepare_for_routing, cached_state,
  load_state, open_half, refresh_probes, mark_probe_selected,
}
use payment_gateway_router.Service.Health.Invariant.{Inv}
use payment_gateway_router.Service.Health.Steps.{memory_deps}
use payment_gateway_router.Service.Health.Branches.{unmoved}
use payment_gateway_router.Service.Health.Outcome.{Recorded, Failed, record_outcome-Recorded}
use payment_gateway_router.Service.Routing.{
  snapshot, rebuild, collect, add_candidate, classify, select_weighted, choose, total_weight, pick,
  counts, filter_loop, filter_excluded, select_healthy, select_probe, select_gateway, contains,
  GatewaySelectionRequest,
}
use payment_gateway_router.Service.Routing.Exclusion.{select_gateway-NotExcluded}
use payment_gateway_router.Service.Transactions.{
  InitiateTransactionInput, CallbackInput, initiate, callback, process_outcome, initiate_on,
}
use payment_gateway_router.Service.Transactions.Exclusion.{initiate-AvoidsFailed}
use payment_gateway_router.Service.Transactions.Effects.{openings, initiate-OpensOnly}
use payment_gateway_router.Service.Transactions.Callbacks.{Answered, Failing, callback-Answered}
use payment_gateway_router.Action.{◌>>=◌}
use payment_gateway_router.Service.Blacklist as OrderBlacklist
use payment_gateway_router.Tests.Selection.{start}
use payment_gateway_router.Tests.Repositories.{stored, outcomes}

abbrev probing : GatewayRuntimeState
probing = record {
  gateway = "razorpay";
  state = half_open;
  unhealthy_until = 62999999999000000000;
  half_open_in_flight = pos 1;
  half_open_probes =
      record { transaction_id = "txn_1"; expires_at_unix_milli = pos 900000000000 } ∷ [];
  updated_at = 62999999999000000000;
}

abbrev states : Dict GatewayRuntimeState
states = Dict.put Dict.empty "razorpay" probing

abbrev pub world : World Transactions.Store Health.Store Blacklist.Store
world = record start {
  transactions = stored;
  health = record { states = states; events = [] };
  blacklist = record_all (pos 2) outcomes Blacklist.new;
}

abbrev pub registry : GatewayClientRegistry
registry name = some (λ t. ok (record { reference_id = "ref" }))

abbrev pub deps : Deps Transactions.Store Health.Store Blacklist.Store
deps = memory_deps Transactions.repository (some Blacklist.repository) registry

abbrev purchase : InitiateTransactionInput
purchase = record { order_id = "ORD1"; amount = Float64.of_ℕ 499; payment_instrument = none }

abbrev pub paid : CallbackInput
paid = record {
  transaction_id = "txn_1";
  order_id = "";
  gateway = "razorpay";
  status = success;
  reason = "";
}

world-openings : Inv (openings states) world
world-openings g = elim (Bool-cases (str_eq "razorpay" g)) [
  | inl e ↦
      rw (get-put, e, get-empty) (((eq_iff "razorpay" g).0 e, refl, λ closed. cc closed), tt, refl)
  | inr e ↦
      rw (get-put, e, get-empty {V = GatewayRuntimeState} g, get-empty {V = CachedGatewayState} g)
        (tt, tt, tt)
]

world-unmoved : Inv (unmoved states) world
world-unmoved g = elim (Bool-cases (str_eq "razorpay" g)) [
  | inl e ↦
      rw (get-put, e, get-empty) (((eq_iff "razorpay" g).0 e, refl, λ closed. cc closed), tt, refl)
  | inr e ↦
      rw (get-put, e, get-empty {V = GatewayRuntimeState} g, get-empty {V = CachedGatewayState} g)
        (tt, tt, tt)
]

initiate-OpensOnly_example :
    Post
      (λ _ w'. Inv (openings states) w')
      (λ _ w'. Inv (openings states) w')
      (initiate deps purchase world)
initiate-OpensOnly_example =
    initiate-OpensOnly Transactions.repository (some Blacklist.repository) registry states purchase
      world world-openings

callback-Answered_example :
    Post
      (Answered Transactions.repository (some Blacklist.repository) registry states)
      (Failing Transactions.repository (some Blacklist.repository) registry states)
      (callback deps paid world)
callback-Answered_example =
    callback-Answered Transactions.repository (some Blacklist.repository) registry states paid world
      world-unmoved

record_outcome-Recorded_example :
    Post
      (Recorded Transactions.repository (some Blacklist.repository) registry "razorpay" states)
      (Failed Transactions.repository (some Blacklist.repository) registry "razorpay" states)
      (record_outcome deps "razorpay" "txn_1" success world)
record_outcome-Recorded_example =
    record_outcome-Recorded Transactions.repository (some Blacklist.repository) registry "razorpay"
      states "txn_1" success world world-unmoved

initiate-AvoidsFailed_example :
    Post (λ made w'. str_eq made.gateway "razorpay" ≡ false) Anything (initiate deps purchase world)
initiate-AvoidsFailed_example =
    initiate-AvoidsFailed Transactions.repository Health.repository registry 2 outcomes "razorpay"
      purchase world (omega arith) (omega arith) refl refl (refl, omega arith)

abbrev request : GatewaySelectionRequest
request = record {
  transaction_id = "txn_1";
  order_id = "ORD1";
  excluded_gateways = Dict.put Dict.empty "payu" tt;
}

select_gateway-NotExcluded_example :
    Post
      (λ selection w'. contains (Dict.put Dict.empty "payu" tt) selection.gateway.name ≡ false)
      Anything
      (select_gateway deps request world)
select_gateway-NotExcluded_example = select_gateway-NotExcluded deps request world

abbrev returns : {A S : Type 0} → Result A × S → Bool
returns (ok _, s) = true
returns (err _, s) = false

purchase-returns : returns (initiate deps purchase world) ≡ true
unfolding initiate initiate_on blacklisted_gateways OrderBlacklist.blacklisted_gateways
    select_gateway snapshot rebuild collect add_candidate classify prepare_for_routing cached_state
    load_state open_half refresh_probes select_weighted choose total_weight pick counts filter_loop
    filter_excluded select_healthy select_probe mark_probe_selected ◌>>=◌ Dict.get Dict.put
    Dict.empty Dict.is_empty Dict.keys_where
    payment_gateway_router.Service.Transactions.blacklisted_gateways
    payment_gateway_router.Domain.Config.with_defaults payment_gateway_router.Go.Int.◌+ℤ◌
    Time.unix_milli Transactions.next_attempt Transactions.save Transactions.get_by_id Health.ensure
    Health.get Health.save Health.prune_expired Health.prune_expired_half_open_probes
    Health.try_acquire_half_open_probe Blacklist.record_outcome Blacklist.next_summary
purchase-returns = refl

callback-returns : returns (callback deps paid world) ≡ true
unfolding callback process_outcome record_outcome transition save_state
    OrderBlacklist.record_outcome after_probe ◌>>=◌ Dict.get Dict.put Dict.empty Time.unix_milli
    Transactions.save Transactions.get_by_id Transactions.complete Health.ensure Health.get
    Health.save Health.record_event Health.stats_since Health.stats_loop Health.with_rate
    Health.prune_expired Health.release_half_open_probe Health.release_loop Blacklist.record_outcome
    Blacklist.next_summary
callback-returns = refl
