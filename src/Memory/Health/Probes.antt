-- ===== src/Memory/Health/Probes.antt =====
-- The half-open probes that are in flight at a time, under any sequence of the calls of
-- internal/adapters/repository/memory/gateway_health_repository.go: each call holds the mutex, so
-- every interleaving of goroutines is such a sequence.
use payment_gateway_router.Common.{
  ℕ, ◌≤◌, ◌≡◌, refl, String, Option, none, some, List, [], ◌∷◌, arith, length, length-append,
  length-keep-le, not,
}
use payment_gateway_router.Go.Int.{pos}
use payment_gateway_router.Go.Time.{Time, unix_milli}
use payment_gateway_router.Go.Dict
use payment_gateway_router.Go.Dict.{get-put, get-empty}
use payment_gateway_router.Domain.Gateway.{GatewayRuntimeState}
use payment_gateway_router.Memory.Health.{
  Store, new, ensure, save, store_state, initial, prune_expired_half_open_probes,
  try_acquire_half_open_probe, release_half_open_probe, add_probe, with_probes, is_live,
  is_probe_of,
}
use payment_gateway_router.Memory.Health.Cases.{
  live, others, pruned, released, ensure_cases, prune_cases, acquire_cases, release_cases,
}

-- The calls on the repository. A service saves states without probes only: a reset.
pub data Call : Type 0 where
  ensures : String → Time → Call
  prunes : String → Time → Call
  acquires : String → String → Time → Time → Call
  releases : String → String → Time → Call
  resets : GatewayRuntimeState → Call

abbrev pub reset : GatewayRuntimeState → GatewayRuntimeState
reset state = record state { half_open_probes = []; half_open_in_flight = pos 0 }

-- Every probe is acquired under the same maximum.
abbrev pub step : ℕ → Call → Store → Store
step max (ensures g now) s = (ensure g now s).1
step max (prunes g now) s = (prune_expired_half_open_probes g now s).1
step max (acquires g t expires_at now) s =
    (try_acquire_half_open_probe g t (pos max) expires_at now s).1
step max (releases g t now) s = (release_half_open_probe g t now s).1
step max (resets state) s = (save (reset state) s).1

abbrev pub run : ℕ → List Call → Store → Store
run max [] s = s
run max (c ∷ cs) s = run max cs (step max c s)

abbrev pub Limited : ℕ → Option GatewayRuntimeState → Type 0
Limited max none = Unit
Limited max (some state) =
    (length state.half_open_probes ≤ max)
    × (state.half_open_in_flight ≡ pos (length state.half_open_probes))

-- No gateway has more probes in flight than the maximum, and the number on record is right.
abbrev pub IsLimited : ℕ → Store → Type 0
IsLimited max s = (g : String) → Limited max (Dict.get s.states g)

store_state-IsLimited :
    (max : ℕ) (s : Store) (g : String) (state : GatewayRuntimeState)
    → IsLimited max s
    → Limited max (some state)
    → IsLimited max (store_state s g state)
store_state-IsLimited max s g state h k j = ground (arith, get-put s.states g j state, h j)

length-live :
    (state : GatewayRuntimeState) (now : Time)
    → length (live state now) ≤ length state.half_open_probes
length-live state now = length-keep-le (is_live (unix_milli now)) state.half_open_probes

length-others :
    (t : String) (state : GatewayRuntimeState) (now : Time)
    → length (others t (live state now)) ≤ length (live state now)
length-others t state now = length-keep-le (λ p. not (is_probe_of t p)) (live state now)

step-IsLimited : (max : ℕ) (c : Call) (s : Store) → IsLimited max s → IsLimited max (step max c s)
unfolding save
step-IsLimited max (ensures g now) s h =
    ensure_cases g now s (λ r. IsLimited max r.1)
      (λ _. store_state-IsLimited max s g (initial g now) h (omega arith, refl)) (λ _ _. h)
step-IsLimited max (prunes g now) s h =
    prune_cases g now s (λ r. IsLimited max r.1) (λ _. h) (λ _ _ _. h)
      (λ state e half.
        let old : Limited max (some state) = rw e at (h g) in
        store_state-IsLimited max s g (pruned state now) h
          (omega (arith, length-live state now), refl))
step-IsLimited max (acquires g t expires_at now) s h =
    acquire_cases g t now s (pos max) expires_at (λ r. IsLimited max r.1) (λ _. h) (λ _ _ _. h)
      (λ state e half full.
        let old : Limited max (some state) = rw e at (h g) in
        store_state-IsLimited max s g (with_probes state (live state now)) h
          (omega (arith, length-live state now), refl))
      (λ state e half free.
        store_state-IsLimited max s g
          (add_probe (with_probes state (live state now)) t expires_at now) h
          (rw length-append (ground arith), refl))
step-IsLimited max (releases g t now) s h =
    release_cases g t now s (λ r. IsLimited max r.1) (λ _. h) (λ _ _ _. h)
      (λ state e half.
        let old : Limited max (some state) = rw e at (h g) in
        store_state-IsLimited max s g (released state t now) h
          (omega (arith, length-live state now, length-others t state now), refl))
step-IsLimited max (resets state) s h =
    store_state-IsLimited max s state.gateway (reset state) h (omega arith, refl)

-- From a repository within the limit, whatever calls are made in any order, no gateway ever has more probes in
-- flight than the maximum, and its `HalfOpenInFlight` is the number of its probes: if every
-- acquisition passes that maximum and every saved state is one without probes.
pub run-IsLimited :
    (max : ℕ) (cs : List Call) (s : Store) → IsLimited max s → IsLimited max (run max cs s)
run-IsLimited max [] s h = h
run-IsLimited max (c ∷ cs) s h = run-IsLimited max cs (step max c s) (step-IsLimited max c s h)

pub new-IsLimited : (max : ℕ) → IsLimited max new
new-IsLimited max g = rw (get-empty {V = GatewayRuntimeState} g) tt
