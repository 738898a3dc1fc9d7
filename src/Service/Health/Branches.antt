-- ===== src/Service/Health/Branches.antt =====
-- The decisions of `RecordOutcome` in internal/service/health_service.go, and the moves of a state
-- that one outcome may make.
use payment_gateway_router.Common.{
  Option, none, some, if◌then◌else◌, String, not, ◌&&◌, ◌||◌, ◌≡◌, refl, Bool, true, false, [],
  eq_refl, eq_iff, str_eq, Bool-cases, inl, inr, arith, ap, not, String, Option, some,
}
use payment_gateway_router.Go.Dict.{Dict}
use payment_gateway_router.Service.Health.Invariant.{Baseline, Moves}
use payment_gateway_router.Domain.Gateway.{
  GatewayState, healthy, unhealthy, half_open, other, GatewayStats, GatewayRuntimeState,
}
use payment_gateway_router.Domain.Transaction.{TransactionStatus, success, failure}
use payment_gateway_router.Domain.Config.{RoutingConfig}
use payment_gateway_router.Go.Float64
use payment_gateway_router.Go.Time.{Time, is_zero, unix_milli, is_zero}
use payment_gateway_router.Go.Time
use payment_gateway_router.Go.Int.{pos, leb_ℤ}
use payment_gateway_router.Service.Health.{
  RoutingConfig, after_probe, judge, after_cooldown, TransactionStatus, mark_unhealthy,
  mark_healthy,
}

-- No move.
abbrev pub same : GatewayState → GatewayState → Bool
same healthy healthy = true
same unhealthy unhealthy = true
same half_open half_open = true
same (other s) (other t) = str_eq s t
same _ _ = false

-- The moves of one outcome.
abbrev pub moves : GatewayState → GatewayState → Bool
moves healthy healthy = true
moves healthy unhealthy = true
moves unhealthy unhealthy = true
moves unhealthy half_open = true
moves half_open half_open = true
moves half_open healthy = true
moves half_open unhealthy = true
moves (other s) (other t) = str_eq s t
moves (other s) healthy = true
moves (other s) unhealthy = true
moves _ _ = false

pub same-moves : (a b : GatewayState) → same a b ≡ true → moves a b ≡ true
same-moves a b h = ground arith

pub same_refl : (a : GatewayState) → same a a ≡ true
same_refl healthy = refl
same_refl unhealthy = refl
same_refl half_open = refl
same_refl (other s) = eq_refl s

pub same-eq : (a b : GatewayState) → same a b ≡ true → a ≡ b
same-eq (other s) (other t) h = ap other ((eq_iff s t).0 h)
same-eq healthy b h = ground arith
same-eq unhealthy b h = ground arith
same-eq half_open b h = ground arith
same-eq a b h = ground arith

abbrev pub reopened : GatewayRuntimeState → Time → GatewayRuntimeState
reopened state at = record state {
  state = half_open;
  half_open_in_flight = pos 0;
  half_open_probes = [];
  updated_at = at;
}

-- The branches of the outcomes, to prove a property of the new state from each of them.
module _ (state : GatewayRuntimeState) (at : Time) (P : GatewayRuntimeState → Type 0) where
  pub judge_cases :
      (routing : RoutingConfig) (stats : GatewayStats)
      → P (mark_unhealthy state routing at)
      → P (mark_healthy state at)
      → P (judge state stats routing at)
  unfolding judge
  judge_cases routing stats bad good =
      elim (Bool-cases (
        leb_ℤ routing.min_callback_count (pos stats.total)
        && Float64.lt stats.success_rate routing.success_rate_threshold)) [
          | inl e ↦ rw e bad
          | inr e ↦ rw e good
        ]

  pub after_probe_cases :
      (routing : RoutingConfig) (status : TransactionStatus)
      → P (mark_unhealthy state routing at)
      → P (mark_healthy state at)
      → P state
      → P (after_probe state status routing at)
  unfolding after_probe
  after_probe_cases routing success bad good kept = good
  after_probe_cases routing failure bad good kept = bad
  after_probe_cases routing _ bad good kept = kept

  pub after_cooldown_cases : P (reopened state at) → P state → P (after_cooldown state at)
  unfolding after_cooldown
  after_cooldown_cases reopen kept =
      elim (Bool-cases
        (is_zero state.unhealthy_until || not (Time.before at state.unhealthy_until))) [
          | inl e ↦ rw e reopen
          | inr e ↦ rw e kept
        ]

-- No gateway has moved since `start`, and only `g` has, by one outcome.
abbrev pub unmoved : Dict GatewayRuntimeState → Baseline
unmoved start = record { states = start; allows = λ _. same }

abbrev pub one_outcome : String → Dict GatewayRuntimeState → Baseline
one_outcome g start = record { states = start; allows = λ j. if str_eq g j then moves else same }

module _ (g : String) (start : Dict GatewayRuntimeState) where
  allows_same :
      (j : String) (a b : GatewayState)
      → same a b ≡ true
      → (one_outcome g start).allows j a b ≡ true
  allows_same j a b h = elim (Bool-cases (str_eq g j)) [
    | inl e ↦ rw e (same-moves a b h)
    | inr e ↦ rw e h
  ]

  pub Moves-widen :
      (j : String) (o p : Option GatewayRuntimeState)
      → Moves same o p
      → Moves ((one_outcome g start).allows j) o p
  Moves-widen j none p h = tt
  Moves-widen j (some a) none h = h
  Moves-widen j (some a) (some b) h = allows_same j a.state b.state h

  pub Moves-then :
      (o : Option GatewayRuntimeState) (a b : GatewayRuntimeState)
      → Moves same o (some a)
      → moves a.state b.state ≡ true
      → Moves ((one_outcome g start).allows g) o (some b)
  Moves-then none a b h m = tt
  Moves-then (some c) a b h m = rw (eq_refl g, same-eq c.state a.state h) m
