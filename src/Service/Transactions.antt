-- ===== src/Service/Transactions.antt =====
-- internal/service/transaction_service.go
pub mod Exclusion
pub mod Effects
pub mod Callbacks
pub mod Answering
pub mod Verdicts
use payment_gateway_router.Common.{
  String, Bool, true, false, not, ◌&&◌, Option, none, some, str_eq, if◌then◌else◌,
}
use payment_gateway_router.Go.Float64.{Float64}
use payment_gateway_router.Go.Dict
use payment_gateway_router.Go.Dict.{Dict}
use payment_gateway_router.Action.{Action, pure, raise, lift, on_error, ◌>>=◌, ◌>>◌}
use payment_gateway_router.Domain.Errors.{gateway_mismatch, conflict, message, fail_if}
use payment_gateway_router.Domain.Json.{Fields}
use payment_gateway_router.Domain.Transaction.{Transaction, TransactionStatus, pending}
use payment_gateway_router.Domain.Gateway.{GatewayRuntimeState, GatewayStats}
use payment_gateway_router.Ports.{PaymentGatewayClient, OrderGatewayBlacklistRepository}
use payment_gateway_router.Service.World.{Deps, World, now, new_id, on_transactions}
use payment_gateway_router.Service.Health.{release_probe, record_outcome, state_of, stats_of}
use payment_gateway_router.Service.Blacklist
use payment_gateway_router.Service.Routing.{GatewaySelection, select_gateway}

pub record InitiateTransactionInput : Type 0 where
  pub order_id : String
  pub amount : Float64
  pub payment_instrument : Option Fields

pub record CallbackInput : Type 0 where
  pub transaction_id : String
  pub order_id : String
  pub gateway : String
  pub status : TransactionStatus
  pub reason : String

pub record CallbackResult : Type 0 where
  pub transaction : Transaction
  pub gateway_state : GatewayRuntimeState
  pub gateway_stats : GatewayStats
  pub idempotent : Bool

module _ {T H B : Type 0} (deps : Deps T H B) where
  unfoldable pub blacklisted_gateways : String → Action (World T H B) (Dict (Unit {0}))
  blacklisted_gateways order_id = elim deps.order_gateways [
    | none ↦ pure Dict.empty
    | some repository ↦ Blacklist.blacklisted_gateways repository order_id
  ]

  -- `releaseProbe(cause)`
  unfoldable pub release_selected : GatewaySelection → String → Action (World T H B) (Unit {0})
  release_selected selection transaction_id =
      if not selection.half_open_probe
      then pure tt
      else release_probe deps selection.gateway.name transaction_id

  -- `client, ok := s.gateways.Client(gateway.Name)`
  abbrev pub client_of : Option PaymentGatewayClient → Action (World T H B) PaymentGatewayClient
  client_of none = raise (message "gateway client is not registered")
  client_of (some client) = pure client

  -- `Initiate` from the gateway client on.
  unfoldable pub initiate_on :
      String → InitiateTransactionInput → GatewaySelection → Action (World T H B) Transaction
  initiate_on transaction_id input selection = do
    client ← client_of (deps.gateways selection.gateway.name)
    attempt_no ← on_transactions (deps.transactions.next_attempt input.order_id)
    at ← now
    let transaction : Transaction = record {
      id = transaction_id;
      order_id = input.order_id;
      attempt_no = attempt_no;
      amount = input.amount;
      payment_instrument = input.payment_instrument;
      gateway = selection.gateway.name;
      gateway_reference_id = "";
      status = pending;
      failure_reason = "";
      created_at = at;
      updated_at = at;
      completed_at = none;
    }
    initiation ← lift (client transaction)
    let initiated = record transaction { gateway_reference_id = initiation.reference_id }
    on_transactions (deps.transactions.save initiated)
    pure initiated

  -- Every error after the selection releases the probe, so one handler stands for the four.
  unfoldable pub initiate : InitiateTransactionInput → Action (World T H B) Transaction
  initiate input = do
    transaction_id ← new_id
    excluded ← blacklisted_gateways input.order_id
    selection ← select_gateway deps (record {
      transaction_id = transaction_id;
      order_id = input.order_id;
      excluded_gateways = excluded;
    })
    on_error (initiate_on transaction_id input selection)
        (λ cause. release_selected selection transaction_id)

  -- `s.orderGateways.RecordOutcome`, unless it is nil.
  abbrev pub record_for_order :
      Option (OrderGatewayBlacklistRepository B) → Transaction → Action (World T H B) (Unit {0})
  record_for_order none t = pure tt
  record_for_order (some repository) t = Blacklist.record_outcome repository t

  -- `Callback` after `Complete`: a duplicate reads the state and the statistics.
  unfoldable pub answer_duplicate : Transaction → Action (World T H B) CallbackResult
  answer_duplicate t = do
    state ← state_of deps t.gateway
    stats ← stats_of deps t.gateway
    pure (record {
      transaction = t;
      gateway_state = state;
      gateway_stats = stats;
      idempotent = true;
    })

  -- And a first callback records the outcome.
  unfoldable pub process_outcome : Transaction → Action (World T H B) CallbackResult
  process_outcome t = do
    (state, stats) ← record_outcome deps t.gateway t.id t.status
    record_for_order deps.order_gateways t
    pure (record {
      transaction = t;
      gateway_state = state;
      gateway_stats = stats;
      idempotent = false;
    })

  unfoldable pub callback : CallbackInput → Action (World T H B) CallbackResult
  callback input = do
    found ← on_transactions (deps.transactions.get_by_id input.transaction_id)
    lift (fail_if (not (str_eq found.gateway input.gateway)) gateway_mismatch)
    lift (
        fail_if (not (str_eq input.order_id "") && not (str_eq found.order_id input.order_id))
          conflict)
    at ← now
    (completed, changed) ←
        on_transactions
          (deps.transactions.complete input.transaction_id input.status input.reason at)
    if not changed then answer_duplicate completed else process_outcome completed
