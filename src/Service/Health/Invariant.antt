-- ===== src/Service/Health/Invariant.antt =====
-- What holds of the gateway states and of the cache in front of them between two calls of
-- internal/service/health_service.go, over the in-memory repository.
use payment_gateway_router.Common.{
  ◌≡◌, String, Bool, true, false, Option, none, some, [], arith, str_eq, eq_iff, eq_refl, length,
  Bool-cases, inl, inr,
}
use payment_gateway_router.Go.Int.{pos}
use payment_gateway_router.Go.Time.{Time}
use payment_gateway_router.Go.Dict
use payment_gateway_router.Go.Dict.{Dict, get-put}
use payment_gateway_router.Domain.Gateway.{
  GatewayState, healthy, unhealthy, half_open, other, GatewayRuntimeState, is_half_open,
  is_unhealthy,
}
use payment_gateway_router.Memory.Health
use payment_gateway_router.Memory.Health.{store_state}
use payment_gateway_router.Service.World.{World, CachedGatewayState}
use payment_gateway_router.Service.Health.{set_cached_state}

-- A stored state bears its key, counts its probes, and has probes only while half open.
abbrev pub StateOk : String → Option GatewayRuntimeState → Type 0
StateOk g none = Unit
StateOk g (some state) =
    (state.gateway ≡ g)
    × (state.half_open_in_flight ≡ pos (length state.half_open_probes))
    × (is_half_open state.state ≡ false → state.half_open_probes ≡ [])

-- A cached state is the stored one.
abbrev pub CacheOk : Option CachedGatewayState → Option GatewayRuntimeState → Type 0
CacheOk none o = Unit
CacheOk (some c) o = o ≡ some c.state

pub CacheOk-new :
    (o : Option CachedGatewayState) (state : GatewayRuntimeState)
    → CacheOk o none
    → CacheOk o (some state)
CacheOk-new none state h = tt
CacheOk-new (some c) state h = cc h

-- How the state of a gateway may have moved since `o`; a gateway is never forgotten.
abbrev pub Moves :
    (GatewayState → GatewayState → Bool)
    → Option GatewayRuntimeState
    → Option GatewayRuntimeState
    → Type 0
Moves r none o = Unit
Moves r (some a) none = ⊥
Moves r (some a) (some b) = r a.state b.state ≡ true

module _ (r : GatewayState → GatewayState → Bool) where
  pub Moves-new :
      (o : Option GatewayRuntimeState) (b : GatewayRuntimeState)
      → Moves r o none
      → Moves r o (some b)
  Moves-new none b h = tt
  Moves-new (some a) b h = absurd h

  pub Moves-same :
      (o : Option GatewayRuntimeState) (a b : GatewayRuntimeState)
      → a.state ≡ b.state
      → Moves r o (some a)
      → Moves r o (some b)
  Moves-same none a b e h = tt
  Moves-same (some c) a b e h = rw (← e) h

-- The same state, or the opening of an unhealthy gateway for probes.
abbrev pub opens : GatewayState → GatewayState → Bool
opens healthy healthy = true
opens unhealthy unhealthy = true
opens unhealthy half_open = true
opens half_open half_open = true
opens (other s) (other t) = str_eq s t
opens _ _ = false

opens_half_open :
    (a b : GatewayState) → is_unhealthy b ≡ true → opens a b ≡ true → opens a half_open ≡ true
opens_half_open a b u h = ground arith

pub opens-Moves :
    (o : Option GatewayRuntimeState) (a b : GatewayRuntimeState)
    → is_unhealthy a.state ≡ true
    → b.state ≡ half_open
    → Moves opens o (some a)
    → Moves opens o (some b)
opens-Moves none a b u e h = tt
opens-Moves (some c) a b u e h = rw e (opens_half_open c.state a.state u h)

-- How each gateway may have moved, and the states that the moves are counted from.
pub record Baseline : Type 0 where
  pub states : Dict GatewayRuntimeState
  pub allows : String → GatewayState → GatewayState → Bool

abbrev pub Since : Baseline → String → Option GatewayRuntimeState → Type 0
Since b g o = Moves (b.allows g) (Dict.get b.states g) o

-- Whether an unhealthy gateway may be opened for probes.
abbrev pub MayOpen : Baseline → String → Type 0
MayOpen before g =
    (a b : GatewayRuntimeState)
    → is_unhealthy a.state ≡ true
    → b.state ≡ half_open
    → Since before g (some a)
    → Since before g (some b)

module _ {T B : Type 0} where
  abbrev pub state_at : World T Health.Store B → String → Option GatewayRuntimeState
  state_at w g = Dict.get w.health.states g

  abbrev pub KeyOk : Baseline → World T Health.Store B → String → Type 0
  KeyOk before w g =
      StateOk g (state_at w g)
      × CacheOk (Dict.get w.state_cache g) (state_at w g)
      × Since before g (state_at w g)

  -- Every gateway's state and cache are right, and it has only moved as it may since `before`.
  abbrev pub Inv : Baseline → World T Health.Store B → Type 0
  Inv before w = (g : String) → KeyOk before w g

  -- The same where the cache of one gateway, whose stored state is known, may be out of date.
  pub record Held (before : Baseline) (g : String) (state : GatewayRuntimeState)
      (w : World T Health.Store B) : Type 0 where
    pub stored : state_at w g ≡ some state
    pub right : StateOk g (some state)
    pub opened : Since before g (some state)
    pub elsewhere : (j : String) → str_eq g j ≡ false → KeyOk before w j

module _ {T B : Type 0} (before : Baseline) (g : String) where
  pub hold :
      (state : GatewayRuntimeState) (w : World T Health.Store B)
      → Inv before w
      → state_at w g ≡ some state
      → Held before g state w
  hold state w h e = record {
    stored = e;
    right = rw e at (h g).0;
    opened = rw e at (h g).2;
    elsewhere = λ j _. h j;
  }

  pub store-Held :
      (state : GatewayRuntimeState) (w : World T Health.Store B)
      → ((j : String) → str_eq g j ≡ false → KeyOk before w j)
      → StateOk g (some state)
      → Since before g (some state)
      → Held before g state (record w { health = store_state w.health g state })
  store-Held state w h right opened = record {
    stored = rw (get-put, eq_refl g);
    right = right;
    opened = opened;
    elsewhere = λ j different. rw (get-put, different) (h j different);
  }

  settle_here :
      (state : GatewayRuntimeState) (at : Time) (w : World T Health.Store B)
      → Held before g state w
      → KeyOk before (set_cached_state state at w).1 g
  settle_here state at w h =
      (rw h.stored h.right, simp (h.right.0, get-put, eq_refl g, h.stored), rw h.stored h.opened)

  pub settle :
      (state : GatewayRuntimeState) (at : Time) (w : World T Health.Store B)
      → Held before g state w
      → Inv before (set_cached_state state at w).1
  settle state at w h j = elim (Bool-cases (str_eq g j)) [
    | inl same ↦ rw (← (eq_iff g j).0 same) (settle_here state at w h)
    | inr different ↦ rw (h.right.0, get-put, different) (h.elsewhere j different)
  ]
