-- ===== src/Service/Health/Steps.antt =====
-- The repository calls and the cache writes that internal/service/health_service.go is made of, over
-- the in-memory repository.
use payment_gateway_router.Common.{
  ◌≡◌, refl, String, true, false, Option, none, some, List, [], ◌++◌, ◌∷◌, eq_refl, eq_iff, str_eq,
  Bool-cases, inl, inr, sym, subst,
}
use payment_gateway_router.Domain.Errors.{Error, Result}
use payment_gateway_router.Domain.Gateway.{GatewayRuntimeState, is_half_open, HalfOpenProbe}
use payment_gateway_router.Go.Dict
use payment_gateway_router.Go.Dict.{Dict, get-put}
use payment_gateway_router.Go.Time.{Time, unix_milli}
use payment_gateway_router.Go.Int.{ℤ}
use payment_gateway_router.Memory.Health
use payment_gateway_router.Memory.Health.{initial, store_state, with_probes}
use payment_gateway_router.Service.Health.{set_cached_state}
use payment_gateway_router.Service.Health.Invariant.{
  Inv, Held, hold, store-Held, settle, StateOk, Since, Baseline, Moves-new, Moves-same, state_at,
  KeyOk, CacheOk-new,
}
use payment_gateway_router.Action.Post.{Post, step-Post}
use payment_gateway_router.Memory.Health.Cases.{
  ensure_cases, get_cases, prune_cases, acquire_cases, release_cases, live, others,
}
use payment_gateway_router.Ports.{
  TransactionRepository, OrderGatewayBlacklistRepository, GatewayClientRegistry,
}
use payment_gateway_router.Action.{Action, ◌>>=◌}
use payment_gateway_router.Service.World.{Deps, World, on_health}

-- The services over the in-memory repository of gateway states.
abbrev pub memory_deps :
    {T B : Type 0}
    → TransactionRepository T
    → Option (OrderGatewayBlacklistRepository B)
    → GatewayClientRegistry
    → Deps T Health.Store B
memory_deps transactions order_gateways gateways = record {
  transactions = transactions;
  health = Health.repository;
  order_gateways = order_gateways;
  gateways = gateways;
}

module _ {T B : Type 0} (before : Baseline) where
  abbrev pub Keeps :
      {A : Type 0}
      → (A → World T Health.Store B → Type 0)
      → Result A × World T Health.Store B
      → Type 0
  Keeps Q r = Post (λ a w. Q a w) (λ e w. Inv before w) r

  ensure_here :
      (g : String) (at : Time) (w : World T Health.Store B)
      → KeyOk before w g
      → state_at w g ≡ none
      → KeyOk before (record w { health = store_state w.health g (initial g at) }) g
  ensure_here g at w h missing = (
    rw (get-put, eq_refl g) (refl, refl, λ _. refl),
    rw (get-put, eq_refl g)
        (CacheOk-new (Dict.get w.state_cache g) (initial g at) (rw missing at h.1)),
    rw (get-put, eq_refl g)
        (Moves-new (before.allows g) (Dict.get before.states g) (initial g at) (rw missing at h.2)),
  )

  pub ensure-Inv :
      (g : String) (at : Time) (w : World T Health.Store B)
      → Inv before w
      → Keeps (λ _ w'. Inv before w') (on_health (Health.ensure g at) w)
  ensure-Inv g at w h =
      ensure_cases g at w.health
        (λ (r, s). Keeps (λ _ w'. Inv before w') (r, record w { health = s }))
        (λ missing j. elim (Bool-cases (str_eq g j)) [
          | inl same ↦ rw (← (eq_iff g j).0 same) (ensure_here g at w (h g) missing)
          | inr different ↦ rw (get-put, different) (h j)
        ])
        (λ state found. h)

  pub reprobe :
      (g : String) (w : World T Health.Store B) (state : GatewayRuntimeState)
      (probes : List HalfOpenProbe) (at : Time)
      → Inv before w
      → state_at w g ≡ some state
      → is_half_open state.state ≡ true
      → let state' = record (with_probes state probes) { updated_at = at } in
        Held before g state' (record w { health = store_state w.health g state' })
  reprobe g w state probes at h found half =
      let k = hold before g state w h found in
      let state' = record (with_probes state probes) { updated_at = at } in
      store-Held before g state' w k.elsewhere (k.right.0, refl, λ closed. cc (half, closed))
        (Moves-same (before.allows g) (Dict.get before.states g) state state' refl k.opened)

  save-Held :
      (g : String) (w : World T Health.Store B) (state : GatewayRuntimeState)
      → ((j : String) → str_eq g j ≡ false → KeyOk before w j)
      → StateOk g (some state)
      → Since before g (some state)
      → Held before g state (record w { health = store_state w.health state.gateway state })
  save-Held g w state elsewhere right opened =
      subst (λ k. Held before g state (record w { health = store_state w.health k state }))
        (sym right.0) (store-Held before g state w elsewhere right opened)

  pub prune-Held :
      (g : String) (at : Time) (w : World T Health.Store B)
      → Inv before w
      → Keeps
          (λ state w'. Held before g state w')
          (on_health (Health.prune_expired_half_open_probes g at) w)
  prune-Held g at w h =
      prune_cases g at w.health
        (λ (r, s). Keeps (λ state w'. Held before g state w') (r, record w { health = s }))
        (λ missing. h) (λ state found closed. hold before g state w h found)
        (λ state found half. reprobe g w state (live state at) at h found half)

  pub acquire-Held :
      (g t : String) (max : ℤ) (expires_at at : Time) (w : World T Health.Store B)
      → Inv before w
      → Keeps
          (λ (state, acquired) w'. Held before g state w')
          (on_health (Health.try_acquire_half_open_probe g t max expires_at at) w)
  acquire-Held g t max expires_at at w h =
      acquire_cases g t at w.health max expires_at
        (λ (r, s).
          Keeps (λ (state, acquired) w'. Held before g state w') (r, record w { health = s }))
        (λ missing. h) (λ state found closed. hold before g state w h found)
        (λ state found half full. reprobe g w state (live state at) state.updated_at h found half)
        (λ state found half free.
          reprobe g w state
            (live state at
              ++ record { transaction_id = t; expires_at_unix_milli = unix_milli expires_at } ∷ [])
            at h found half)

  pub release-Held :
      (g t : String) (at : Time) (w : World T Health.Store B)
      → Inv before w
      → Keeps
          (λ (state, freed) w'. Held before g state w')
          (on_health (Health.release_half_open_probe g t at) w)
  release-Held g t at w h =
      release_cases g t at w.health
        (λ (r, s). Keeps (λ (state, freed) w'. Held before g state w') (r, record w { health = s }))
        (λ missing. h) (λ state found closed. hold before g state w h found)
        (λ state found half. reprobe g w state (others t (live state at)) at h found half)

module _ {T B : Type 0} (before : Baseline) where
  -- All is in order, and the state is the stored one.
  abbrev pub Settled : String → GatewayRuntimeState → World T Health.Store B → Type 0
  Settled g state w = Inv before w × (state_at w g ≡ some state)

  abbrev pub Broken : Error → World T Health.Store B → Type 0
  Broken e w = Inv before w

  settle-Settled :
      (g : String) (state : GatewayRuntimeState) (at : Time) (w : World T Health.Store B)
      → Held before g state w
      → Settled g state (set_cached_state state at w).1
  settle-Settled g state at w h = (settle before g state at w h, h.stored)

  pub cache-Post :
      {A : Type 0} (Q : A → World T Health.Store B → Type 0) (g : String)
      (state : GatewayRuntimeState) (at : Time) (f : Unit {0} → Action (World T Health.Store B) A)
      (w : World T Health.Store B)
      → Held before g state w
      → ((w' : World T Health.Store B) → Settled g state w' → Post Q Broken (f tt w'))
      → Post Q Broken ((set_cached_state state at >>= f) w)
  cache-Post Q g state at f w h k =
      step-Post Q Broken (set_cached_state state at) tt (set_cached_state state at w).1 f w refl
        (k (set_cached_state state at w).1 (settle-Settled g state at w h))

  pub save-Post :
      {A : Type 0} (Q : A → World T Health.Store B → Type 0) (g : String)
      (state : GatewayRuntimeState) (f : Unit {0} → Action (World T Health.Store B) A)
      (w : World T Health.Store B)
      → ((j : String) → str_eq g j ≡ false → KeyOk before w j)
      → StateOk g (some state)
      → Since before g (some state)
      → ((w' : World T Health.Store B) → Held before g state w' → Post Q Broken (f tt w'))
      → Post Q Broken ((on_health (Health.save state) >>= f) w)
  unfolding Health.save
  save-Post Q g state f w elsewhere right opened k =
      let w' = record w { health = store_state w.health state.gateway state } in
      step-Post Q Broken (on_health (Health.save state)) tt w' f w refl
        (k w' (save-Held before g w state elsewhere right opened))

  pub get-Settled :
      (g : String) (at : Time) (w : World T Health.Store B)
      → Inv before w
      → Keeps before (λ state w'. Settled g state w') (on_health (Health.get g) w)
  get-Settled g at w h =
      get_cases g at w.health
        (λ (r, s). Keeps before (λ state w'. Settled g state w') (r, record w { health = s }))
        (λ missing. h) (λ state found. (h, found))
