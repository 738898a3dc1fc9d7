-- ===== src/Memory/Health.antt =====
-- internal/adapters/repository/memory/gateway_health_repository.go
pub mod Cases
pub mod Probes
pub mod Stats
use payment_gateway_router.Common.{
  ◌+◌, String, Bool, true, false, not, ◌&&◌, List, [], ◌∷◌, ◌++◌, none, some, ltb, str_eq, keep,
  length, if◌then◌else◌,
}
use payment_gateway_router.Go.Int.{ℤ, pos, ltb_ℤ, leb_ℤ}
use payment_gateway_router.Go.Float64
use payment_gateway_router.Go.Float64.{Float64}
use payment_gateway_router.Go.Time.{Time, Duration, zero_time, before, after, add_neg, unix_milli}
use payment_gateway_router.Go.Dict
use payment_gateway_router.Go.Dict.{Dict}
use payment_gateway_router.Action.{Action}
use payment_gateway_router.Domain.Errors.{ok, err, not_found}
use payment_gateway_router.Domain.Transaction.{TransactionStatus, success, failure}
use payment_gateway_router.Domain.Gateway.{
  GatewayRuntimeState, HalfOpenProbe, GatewayEvent, GatewayStats, healthy, is_half_open,
}
use payment_gateway_router.Ports.{GatewayHealthRepository}

pub record Store : Type 0 where
  pub states : Dict GatewayRuntimeState
  pub events : List GatewayEvent

abbrev pub new : Store
new = record { states = Dict.empty; events = [] }

abbrev pub store_state : Store → String → GatewayRuntimeState → Store
store_state s gateway state = record s { states = Dict.put s.states gateway state }

-- The state of a gateway that nothing is known of.
abbrev pub initial : String → Time → GatewayRuntimeState
initial gateway now = record {
  gateway = gateway;
  state = healthy;
  unhealthy_until = zero_time;
  half_open_in_flight = pos 0;
  half_open_probes = [];
  updated_at = now;
}

unfoldable pub ensure : String → Time → Action Store (Unit {0})
ensure gateway now s = elim (Dict.get s.states gateway) [
  | some _ ↦ (ok tt, s)
  | none ↦ (ok tt, store_state s gateway (initial gateway now))
]

unfoldable pub get : String → Action Store GatewayRuntimeState
get gateway s = elim (Dict.get s.states gateway) [
  | none ↦ (err not_found, s)
  | some state ↦ (ok state, s)
]

unfoldable pub save : GatewayRuntimeState → Action Store (Unit {0})
save state s = (ok tt, store_state s state.gateway state)

-- The test of the pruning loop: the probe has a transaction and has not expired.
abbrev pub is_live : ℤ → HalfOpenProbe → Bool
is_live now_millis probe =
    not (str_eq probe.transaction_id "") && ltb_ℤ now_millis probe.expires_at_unix_milli

-- `state.HalfOpenProbes = probes; state.HalfOpenInFlight = len(probes)`
abbrev pub with_probes : GatewayRuntimeState → List HalfOpenProbe → GatewayRuntimeState
with_probes state probes = record state {
  half_open_probes = probes;
  half_open_in_flight = pos (length probes);
}

unfoldable pub prune_expired : GatewayRuntimeState → Time → GatewayRuntimeState
prune_expired state now = elim state.half_open_probes [
  | [] ↦ record state { half_open_in_flight = pos 0 }
  | _ ↦ with_probes state (keep (is_live (unix_milli now)) state.half_open_probes)
]

unfoldable pub prune_expired_half_open_probes : String → Time → Action Store GatewayRuntimeState
prune_expired_half_open_probes gateway now s = elim (Dict.get s.states gateway) [
  | none ↦ (err not_found, s)
  | some state ↦
      if not (is_half_open state.state)
      then (ok state, s)
      else let pruned = record (prune_expired state now) { updated_at = now } in
        (ok pruned, store_state s gateway pruned)
]

-- The probe appended, `HalfOpenInFlight` and `UpdatedAt` brought up to date.
abbrev pub add_probe : GatewayRuntimeState → String → Time → Time → GatewayRuntimeState
add_probe state transaction_id expires_at now =
    let probe : HalfOpenProbe = record {
      transaction_id = transaction_id;
      expires_at_unix_milli = unix_milli expires_at;
    } in
    record (with_probes state (state.half_open_probes ++ probe ∷ [])) { updated_at = now }

unfoldable pub try_acquire_half_open_probe :
    String → String → ℤ → Time → Time → Action Store (GatewayRuntimeState × Bool)
try_acquire_half_open_probe gateway transaction_id max_in_flight expires_at now s =
    elim (Dict.get s.states gateway) [
      | none ↦ (err not_found, s)
      | some state ↦
          if not (is_half_open state.state)
          then (ok (state, false), s)
          else let pruned = prune_expired state now in
            if leb_ℤ max_in_flight pruned.half_open_in_flight
            then (ok (pruned, false), store_state s gateway pruned)
            else let acquired = add_probe pruned transaction_id expires_at now in
              (ok (acquired, true), store_state s gateway acquired)
    ]

abbrev pub is_probe_of : String → HalfOpenProbe → Bool
is_probe_of transaction_id probe = str_eq probe.transaction_id transaction_id

-- The release loop: the probes that stay, and whether one was dropped.
unfoldable pub release_loop : String → List HalfOpenProbe → List HalfOpenProbe × Bool
release_loop transaction_id [] = ([], false)
release_loop transaction_id (probe ∷ rest) =
    let (probes, released) = release_loop transaction_id rest in
    if is_probe_of transaction_id probe then (probes, true) else (probe ∷ probes, released)

unfoldable pub release_half_open_probe :
    String → String → Time → Action Store (GatewayRuntimeState × Bool)
release_half_open_probe gateway transaction_id now s = elim (Dict.get s.states gateway) [
  | none ↦ (err not_found, s)
  | some state ↦
      if not (is_half_open state.state)
      then (ok (state, false), s)
      else let pruned = prune_expired state now in
        let (probes, released) = release_loop transaction_id pruned.half_open_probes in
        let state' = record (with_probes pruned probes) { updated_at = now } in
        (ok (state', released), store_state s gateway state')
]

unfoldable pub record_event : GatewayEvent → Duration → Action Store (Unit {0})
record_event event retention s =
    let cutoff = add_neg event.created_at retention in
    (
      ok tt,
      record s {
        events = keep (λ existing. not (before existing.created_at cutoff)) s.events ++ event ∷ [];
      },
    )

-- Whether an event is one of the gateway's in the window.
abbrev pub in_window : String → Time → Time → GatewayEvent → Bool
in_window gateway since until event =
    str_eq event.gateway gateway
    && not (before event.created_at since)
    && not (after event.created_at until)

abbrev pub tally : GatewayStats → TransactionStatus → GatewayStats
tally stats success = record stats { successes = stats.successes + 1 }
tally stats failure = record stats { failures = stats.failures + 1 }
tally stats _ = stats

unfoldable pub stats_loop : String → Time → Time → List GatewayEvent → GatewayStats → GatewayStats
stats_loop gateway since until [] stats = stats
stats_loop gateway since until (event ∷ rest) stats =
    stats_loop gateway since until rest
      (if in_window gateway since until event then tally stats event.status else stats)

-- The total and the rate, once the outcomes are counted.
unfoldable pub with_rate : GatewayStats → GatewayStats
with_rate stats =
    let total = stats.successes + stats.failures in
    record stats {
      total = total;
      success_rate =
          if ltb 0 total
          then Float64.div (Float64.of_ℕ stats.successes) (Float64.of_ℕ total)
          else stats.success_rate;
    }

abbrev pub no_stats : String → GatewayStats
no_stats gateway = record {
  gateway = gateway;
  successes = 0;
  failures = 0;
  total = 0;
  success_rate = Float64.of_ℕ 0;
}

unfoldable pub stats_since : String → Time → Time → Duration → Action Store GatewayStats
stats_since gateway since until bucket_size s =
    (ok (with_rate (stats_loop gateway since until s.events (no_stats gateway))), s)

abbrev pub repository : GatewayHealthRepository Store
repository = record {
  ensure = ensure;
  get = get;
  save = save;
  prune_expired_half_open_probes = prune_expired_half_open_probes;
  try_acquire_half_open_probe = try_acquire_half_open_probe;
  release_half_open_probe = release_half_open_probe;
  record_event = record_event;
  stats_since = stats_since;
}
