-- ===== src/Service/Health/Outcome.antt =====
-- `RecordOutcome` of internal/service/health_service.go, over the in-memory repository: how the
-- gateways' states move.
use payment_gateway_router.Common.{
  not, ◌≡◌, refl, String, true, Option, some, if◌then◌else◌, sym, ◌∙◌, ap, ◌+◌, not,
}
use payment_gateway_router.Domain.Errors.{Error, Result}
use payment_gateway_router.Domain.Gateway.{
  GatewayState, healthy, unhealthy, half_open, other, GatewayStats, GatewayRuntimeState,
  GatewayEvent,
}
use payment_gateway_router.Domain.Transaction.{TransactionStatus, is_final}
use payment_gateway_router.Domain.Config.{RoutingConfig}
use payment_gateway_router.Go.Dict
use payment_gateway_router.Go.Dict.{Dict, get-put}
use payment_gateway_router.Go.Time.{Time, Duration}
use payment_gateway_router.Memory.Health
use payment_gateway_router.Memory.Health.{initial, store_state, with_probes}
use payment_gateway_router.Service.Health.{
  set_cached_state, RoutingConfig, after_probe, judge, after_cooldown, TransactionStatus,
  mark_unhealthy, mark_healthy, save_state, transition, record_outcome,
}
use payment_gateway_router.Service.Health.Invariant.{
  Inv, Held, hold, settle, StateOk, state_at, KeyOk,
}
use payment_gateway_router.Action.Post.{Post, Post-mono, bind-Post, if-Post, step-Post}
use payment_gateway_router.Memory.Health.Cases.{release_cases, live, others}
use payment_gateway_router.Ports.{
  TransactionRepository, OrderGatewayBlacklistRepository, GatewayClientRegistry,
}
use payment_gateway_router.Action.{Action, pure, ◌>>=◌}
use payment_gateway_router.Service.World.{Deps, World, now, on_health, current_config}
use mathlib.Core.Option.{some-injective}
use payment_gateway_router.Service.Health.Steps.{
  reprobe, memory_deps, Settled, Broken, ensure-Inv, get-Settled, cache-Post, save-Post,
}
use payment_gateway_router.Service.Health.Branches.{
  unmoved, one_outcome, Moves-widen, Moves-then, moves, judge_cases, after_probe_cases,
  after_cooldown_cases, reopened,
}

module _ {T B : Type 0} (transactions : TransactionRepository T)
    (order_gateways : Option (OrderGatewayBlacklistRepository B)) (gateways : GatewayClientRegistry)
    (g : String) (start : Dict GatewayRuntimeState) where
  abbrev deps : Deps T Health.Store B
  deps = memory_deps transactions order_gateways gateways

  pub widen :
      (j : String) (w : World T Health.Store B)
      → KeyOk (unmoved start) w j
      → KeyOk (one_outcome g start) w j
  widen j w (right, cached, h) =
      (right, cached, Moves-widen g start j (Dict.get start j) (state_at w j) h)

  -- The state that is returned is the stored one, and only `g` has moved.
  abbrev pub Recorded : GatewayRuntimeState × GatewayStats → World T Health.Store B → Type 0
  Recorded (state, stats) w = Settled (one_outcome g start) g state w

  abbrev pub Failed : Error → World T Health.Store B → Type 0
  Failed = Broken (one_outcome g start)

  save_state-Recorded :
      (stats : GatewayStats) (at : Time) (old state : GatewayRuntimeState)
      (w : World T Health.Store B)
      → Held (unmoved start) g old w
      → StateOk g (some state)
      → moves old.state state.state ≡ true
      → Post Recorded Failed (save_state deps state stats at w)
  unfolding save_state
  save_state-Recorded stats at old state w h right m =
      save-Post (one_outcome g start) Recorded g state _ w (λ j d. widen j w (h.elsewhere j d))
        right (Moves-then g start (Dict.get start g) old state h.opened m)
        (λ w2 h2. cache-Post (one_outcome g start) Recorded g state at _ w2 h2 (λ w3 h3. h3))

  after_probe-Recorded :
      (status : TransactionStatus) (routing : RoutingConfig) (stats : GatewayStats) (at : Time)
      (state : GatewayRuntimeState) (w : World T Health.Store B)
      → Held (unmoved start) g state w
      → state.state ≡ half_open
      → Post Recorded Failed (save_state deps (after_probe state status routing at) stats at w)
  after_probe-Recorded status routing stats at state w h half =
      after_probe_cases state at (λ s. Post Recorded Failed (save_state deps s stats at w)) routing
        status
        (save_state-Recorded stats at state (mark_unhealthy state routing at) w h
          (h.right.0, refl, λ _. refl) (rw half refl))
        (save_state-Recorded stats at state (mark_healthy state at) w h (h.right.0, refl, λ _. refl)
          (rw half refl))
        (save_state-Recorded stats at state state w h h.right (rw half refl))

  after_cooldown-Recorded :
      (stats : GatewayStats) (at : Time) (state : GatewayRuntimeState) (w : World T Health.Store B)
      → Held (unmoved start) g state w
      → state.state ≡ unhealthy
      → Post Recorded Failed (save_state deps (after_cooldown state at) stats at w)
  after_cooldown-Recorded stats at state w h bad =
      after_cooldown_cases state at (λ s. Post Recorded Failed (save_state deps s stats at w))
        (save_state-Recorded stats at state (reopened state at) w h (h.right.0, refl, λ _. refl)
          (rw bad refl))
        (save_state-Recorded stats at state state w h h.right (rw bad refl))

  judge-Recorded :
      (routing : RoutingConfig) (stats : GatewayStats) (at : Time) (state : GatewayRuntimeState)
      (w : World T Health.Store B)
      → Held (unmoved start) g state w
      → moves state.state unhealthy ≡ true
      → moves state.state healthy ≡ true
      → Post Recorded Failed (save_state deps (judge state stats routing at) stats at w)
  judge-Recorded routing stats at state w h bad good =
      judge_cases state at (λ s. Post Recorded Failed (save_state deps s stats at w)) routing stats
        (save_state-Recorded stats at state (mark_unhealthy state routing at) w h
          (h.right.0, refl, λ _. refl) bad)
        (save_state-Recorded stats at state (mark_healthy state at) w h (h.right.0, refl, λ _. refl)
          good)

  release_same :
      (t : String) (at : Time) (state : GatewayRuntimeState) (w : World T Health.Store B)
      → Settled (unmoved start) g state w
      → Post
          (λ (s, freed) w'. Held (unmoved start) g s w' × (s.state ≡ state.state))
          Failed
          (on_health (Health.release_half_open_probe g t at) w)
  release_same t at state w h =
      release_cases g t at w.health
        (λ (r, s).
          Post (λ (s, freed) w'. Held (unmoved start) g s w' × (s.state ≡ state.state)) Failed
            (r, record w { health = s }))
        (λ missing j. widen j w (h.0 j))
        (λ s found closed. (
          hold (unmoved start) g s w h.0 found,
          ap GatewayRuntimeState.state (some-injective s state (sym found ∙ h.1)),
        ))
        (λ s found half. (
          reprobe (unmoved start) g w s (others t (live s at)) at h.0 found half,
          ap GatewayRuntimeState.state (some-injective s state (sym found ∙ h.1)),
        ))

  transition-Recorded :
      (k : GatewayState) (t : String) (status : TransactionStatus) (routing : RoutingConfig)
      (at : Time) (stats : GatewayStats) (state : GatewayRuntimeState) (w : World T Health.Store B)
      → state.state ≡ k
      → Settled (unmoved start) g state w
      → Post Recorded Failed (transition deps k g t status routing at stats state w)
  unfolding transition
  transition-Recorded half_open t status routing at stats state w e h =
      bind-Post (λ (s, freed) w'. Held (unmoved start) g s w' × (s.state ≡ state.state)) Recorded
        Failed (on_health (Health.release_half_open_probe g t at)) _ w (release_same t at state w h)
        (λ (s, freed) w2 (h2, e2).
          if-Post Recorded Failed (not freed) _ _ w2
            (λ _.
              step-Post Recorded Failed (set_cached_state s at) tt (set_cached_state s at w2).1 _ w2
                refl
                (
                  λ j. widen j (set_cached_state s at w2).1 (settle (unmoved start) g s at w2 h2 j),
                  h2.stored,
                ))
            (λ _. after_probe-Recorded status routing stats at s w2 h2 (e2 ∙ e)))
  transition-Recorded unhealthy t status routing at stats state w e h =
      after_cooldown-Recorded stats at state w (hold (unmoved start) g state w h.0 h.1) e
  transition-Recorded healthy t status routing at stats state w e h =
      judge-Recorded routing stats at state w (hold (unmoved start) g state w h.0 h.1) (rw e refl)
        (rw e refl)
  transition-Recorded (other s) t status routing at stats state w e h =
      judge-Recorded routing stats at state w (hold (unmoved start) g state w h.0 h.1) (rw e refl)
        (rw e refl)

  wider :
      {A : Type 0} (Q : A → World T Health.Store B → Type 0) (r : Result A × World T Health.Store B)
      → Post Q (Broken (unmoved start)) r
      → Post Q Failed r
  wider Q r h =
      Post-mono Q Q (Broken (unmoved start)) Failed r h (λ _ _ k. k) (λ e w k j. widen j w (k j))

  record_event-Inv :
      (event : GatewayEvent) (retention : Duration) (w : World T Health.Store B)
      → Inv (unmoved start) w
      → Post
          (λ _ w'. Inv (unmoved start) w')
          Failed
          (on_health (Health.record_event event retention) w)
  unfolding Health.record_event
  record_event-Inv event retention w h = h

  stats-Post :
      (since until : Time) (bucket : Duration)
      (f : GatewayStats → Action (World T Health.Store B) (GatewayRuntimeState × GatewayStats))
      (w : World T Health.Store B)
      → ((stats : GatewayStats) → Post Recorded Failed (f stats w))
      → Post Recorded Failed ((on_health (Health.stats_since g since until bucket) >>= f) w)
  unfolding Health.stats_since
  stats-Post since until bucket f w h =
      step-Post Recorded Failed (on_health (Health.stats_since g since until bucket)) _ w f w refl
        (h _)

  -- If gateways are in order (each stored state bears its key, counts its probes and has probes
  -- only while half open, each cached state is the stored one), `RecordOutcome` keeps them so,
  -- whether it returns or fails. Of the gateways known at the start it moves its own by at most
  -- one step of the circuit breaker (healthy to unhealthy, unhealthy to half open, half open to
  -- healthy or unhealthy, an unknown state to healthy or unhealthy) and the others not at all, and
  -- the state it returns is the stored one.
  pub record_outcome-Recorded :
      (t : String) (status : TransactionStatus) (w : World T Health.Store B)
      → Inv (unmoved start) w
      → Post Recorded Failed (record_outcome deps g t status w)
  unfolding record_outcome
  record_outcome-Recorded t status w h =
      step-Post Recorded Failed now _ (record w { clock_reads = w.clock_reads + 1 }) _ w refl
        (step-Post Recorded Failed current_config _ _ _ _ refl (
          bind-Post (λ _ w'. Inv (unmoved start) w') Recorded Failed (on_health (Health.ensure g _))
            _ _ (wider (λ _ w'. Inv (unmoved start) w') _ (ensure-Inv (unmoved start) g _ _ h))
            (λ _ w1 h1.
              bind-Post (λ _ w'. Inv (unmoved start) w') Recorded Failed
                (if is_final status then on_health (Health.record_event _ _) else pure tt) _ w1
                (if-Post (λ _ w'. Inv (unmoved start) w') Failed (is_final status) _ _ w1
                  (λ _. record_event-Inv _ _ w1 h1) (λ _. h1))
                (λ _ w2 h2.
                  bind-Post (λ s w'. Settled (unmoved start) g s w') Recorded Failed
                    (on_health (Health.get g)) _ w2
                    (wider (λ s w'. Settled (unmoved start) g s w') _
                      (get-Settled (unmoved start) g (w.clock w.clock_reads) w2 h2))
                    (λ state w3 h3. stats-Post _ _ _ _ w3 (λ stats.
                      transition-Recorded state.state t status _ _ stats state w3 refl h3))))))
