-- ===== src/Memory/Health/Cases.antt =====
-- The half-open probes of internal/adapters/repository/memory/gateway_health_repository.go.
use payment_gateway_router.Common.{
  ◌≡◌, refl, String, Bool, true, false, not, none, some, List, [], ◌∷◌, arith, keep, length,
  if◌then◌else◌, Bool-cases, Option-cases, inl, inr,
}
use payment_gateway_router.Go.Int.{ℤ, pos, leb_ℤ}
use payment_gateway_router.Go.Time.{Time, unix_milli}
use payment_gateway_router.Go.Dict
use payment_gateway_router.Go.Dict.{get-put, get-empty}
use payment_gateway_router.Domain.Errors.{Result, ok, err, not_found}
use payment_gateway_router.Domain.Gateway.{GatewayRuntimeState, HalfOpenProbe, is_half_open}
use payment_gateway_router.Memory.Health.{
  Store, ensure, get, initial, store_state, prune_expired, prune_expired_half_open_probes,
  try_acquire_half_open_probe, release_half_open_probe, release_loop, is_live, is_probe_of,
  add_probe, with_probes, store_state,
}

-- The probes that have not expired.
abbrev pub live : GatewayRuntimeState → Time → List HalfOpenProbe
live state now = keep (is_live (unix_milli now)) state.half_open_probes

pub prune_expired_lem :
    (state : GatewayRuntimeState) (now : Time)
    → prune_expired state now ≡ with_probes state (live state now)
unfolding prune_expired
prune_expired_lem state now = ground arith

-- What stays when the probes of a transaction are released.
abbrev pub others : String → List HalfOpenProbe → List HalfOpenProbe
others transaction_id probes = keep (λ p. not (is_probe_of transaction_id p)) probes

abbrev pub holds : String → List HalfOpenProbe → Bool
holds transaction_id [] = false
holds transaction_id (p ∷ rest) =
    if is_probe_of transaction_id p then true else holds transaction_id rest

pub release_loop_lem :
    (transaction_id : String) (probes : List HalfOpenProbe)
    → release_loop transaction_id probes
      ≡ (others transaction_id probes, holds transaction_id probes)
unfolding release_loop
release_loop_lem t [] = refl
release_loop_lem t (p ∷ rest) = ground (arith, release_loop_lem t rest)

abbrev pub pruned : GatewayRuntimeState → Time → GatewayRuntimeState
pruned state now = record (with_probes state (live state now)) { updated_at = now }

abbrev pub released : GatewayRuntimeState → String → Time → GatewayRuntimeState
released state t now = record (with_probes state (others t (live state now))) { updated_at = now }

-- The outcomes of the calls, to prove a property of a call from each of them.
module _ (g : String) (now : Time) (s : Store) where
  pub ensure_cases :
      (P : Result (Unit {0}) × Store → Type 0)
      → (Dict.get s.states g ≡ none → P (ok tt, store_state s g (initial g now)))
      → ((state : GatewayRuntimeState) → Dict.get s.states g ≡ some state → P (ok tt, s))
      → P (ensure g now s)
  ensure_cases P missing found = elim (Option-cases (Dict.get s.states g)) [
    | inl e ↦ unfold ensure in rw (ensure, e) (missing e)
    | inr (state, e) ↦ unfold ensure in rw (ensure, e) (found state e)
  ]

  pub get_cases :
      (P : Result GatewayRuntimeState × Store → Type 0)
      → (Dict.get s.states g ≡ none → P (err not_found, s))
      → ((state : GatewayRuntimeState) → Dict.get s.states g ≡ some state → P (ok state, s))
      → P (get g s)
  get_cases P missing found = elim (Option-cases (Dict.get s.states g)) [
    | inl e ↦ unfold get in rw (get, e) (missing e)
    | inr (state, e) ↦ unfold get in rw (get, e) (found state e)
  ]

  pub prune_cases :
      (P : Result GatewayRuntimeState × Store → Type 0)
      → (Dict.get s.states g ≡ none → P (err not_found, s))
      → ((state : GatewayRuntimeState)
          → Dict.get s.states g ≡ some state
          → is_half_open state.state ≡ false
          → P (ok state, s))
      → ((state : GatewayRuntimeState)
          → Dict.get s.states g ≡ some state
          → is_half_open state.state ≡ true
          → P (ok (pruned state now), store_state s g (pruned state now)))
      → P (prune_expired_half_open_probes g now s)
  prune_cases P missing closed half = elim (Option-cases (Dict.get s.states g)) [
    | inl e ↦
        unfold prune_expired_half_open_probes in rw (prune_expired_half_open_probes, e) (missing e)
    | inr (state, e) ↦ elim (Bool-cases (is_half_open state.state)) [
      | inl h ↦
          unfold prune_expired_half_open_probes in
          rw (prune_expired_half_open_probes, e, h, prune_expired_lem) (half state e h)
      | inr h ↦
          unfold prune_expired_half_open_probes in
          rw (prune_expired_half_open_probes, e, h) (closed state e h)
    ]
  ]

-- What a closed gateway answers to an acquisition and a release.
module _ (g t : String) (now : Time) (s : Store) where
  pub acquire_cases :
      (max : ℤ) (expires_at : Time) (P : Result (GatewayRuntimeState × Bool) × Store → Type 0)
      → (Dict.get s.states g ≡ none → P (err not_found, s))
      → ((state : GatewayRuntimeState)
          → Dict.get s.states g ≡ some state
          → is_half_open state.state ≡ false
          → P (ok (state, false), s))
      → ((state : GatewayRuntimeState)
          → Dict.get s.states g ≡ some state
          → is_half_open state.state ≡ true
          → leb_ℤ max (pos (length (live state now))) ≡ true
          → let full = with_probes state (live state now) in
            P (ok (full, false), store_state s g full))
      → ((state : GatewayRuntimeState)
          → Dict.get s.states g ≡ some state
          → is_half_open state.state ≡ true
          → leb_ℤ max (pos (length (live state now))) ≡ false
          → let acquired = add_probe (with_probes state (live state now)) t expires_at now in
            P (ok (acquired, true), store_state s g acquired))
      → P (try_acquire_half_open_probe g t max expires_at now s)
  acquire_cases max expires_at P missing closed full free =
      elim (Option-cases (Dict.get s.states g)) [
        | inl e ↦
            unfold try_acquire_half_open_probe in rw (try_acquire_half_open_probe, e) (missing e)
        | inr (state, e) ↦ elim (Bool-cases (is_half_open state.state)) [
          | inr h ↦
              unfold try_acquire_half_open_probe in
              rw (try_acquire_half_open_probe, e, h) (closed state e h)
          | inl h ↦ elim (Bool-cases (leb_ℤ max (pos (length (live state now))))) [
            | inl m ↦
                unfold try_acquire_half_open_probe in
                rw (try_acquire_half_open_probe, e, h, prune_expired_lem, m) (full state e h m)
            | inr m ↦
                unfold try_acquire_half_open_probe in
                rw (try_acquire_half_open_probe, e, h, prune_expired_lem, m) (free state e h m)
          ]
        ]
      ]

  pub release_cases :
      (P : Result (GatewayRuntimeState × Bool) × Store → Type 0)
      → (Dict.get s.states g ≡ none → P (err not_found, s))
      → ((state : GatewayRuntimeState)
          → Dict.get s.states g ≡ some state
          → is_half_open state.state ≡ false
          → P (ok (state, false), s))
      → ((state : GatewayRuntimeState)
          → Dict.get s.states g ≡ some state
          → is_half_open state.state ≡ true
          → P (
            ok (released state t now, holds t (live state now)),
            store_state s g (released state t now),
          ))
      → P (release_half_open_probe g t now s)
  release_cases P missing closed half = elim (Option-cases (Dict.get s.states g)) [
    | inl e ↦ unfold release_half_open_probe in rw (release_half_open_probe, e) (missing e)
    | inr (state, e) ↦ elim (Bool-cases (is_half_open state.state)) [
      | inl h ↦
          unfold release_half_open_probe in
          rw (release_half_open_probe, e, h, prune_expired_lem, release_loop_lem) (half state e h)
      | inr h ↦
          unfold release_half_open_probe in rw (release_half_open_probe, e, h) (closed state e h)
    ]
  ]
