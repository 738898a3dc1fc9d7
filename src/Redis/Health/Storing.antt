-- ===== src/Redis/Health/Storing.antt =====
-- `Ensure`, `Get` and `Save` of internal/adapters/repository/redis/gateway_health_repository.go
-- against their in-memory counterparts.
use payment_gateway_router.Common.{
  String, ◌≡◌, refl, ap, ◌∙◌, Bool, true, false, Option, none, some, subst, arith,
}
use payment_gateway_router.Go.Time.{Time}
use payment_gateway_router.Go.Dict
use payment_gateway_router.Action.Post.{bind_ok}
use payment_gateway_router.Domain.Errors.{ok, err, not_found}
use payment_gateway_router.Action.{lift}
use payment_gateway_router.Domain.Encoding.{encode_state}
use payment_gateway_router.Domain.Gateway.{GatewayRuntimeState}
use payment_gateway_router.Memory.Health as Memory
use payment_gateway_router.Memory.Health.{store_state, initial}
use payment_gateway_router.Memory.Health.Cases.{get_cases, ensure_cases}
use payment_gateway_router.Redis.Key.Splitting.{Plain}
use payment_gateway_router.Redis.Client.{Store}
use payment_gateway_router.Redis.Server.{IsDated}
use payment_gateway_router.Redis.States.{marshal_state, state_text, text_state, state_table}
use payment_gateway_router.Redis.States.Reading.{state_table-Reads}
use payment_gateway_router.Redis.Health.{state_key, ensure, get, save, read_state}
use payment_gateway_router.Redis.Health.Refinement.{
  StateSetting, StandsFor, Agree, stored_at, Related, Refines, to_Refines, put-Related,
  decode_state-StandsFor, TidyProbes,
}

-- A state that can be written: its times, its probes and, for the three states of the code, its kind.
abbrev pub IsWritable : GatewayRuntimeState → Type 0
IsWritable state =
    (text_state (state_text state.state) ≡ state.state)
    × IsDated state.unhealthy_until
    × IsDated state.updated_at
    × TidyProbes state.half_open_probes

encode_state-dated :
    (state : GatewayRuntimeState)
    → IsDated state.unhealthy_until
    → IsDated state.updated_at
    → encode_state state ≡ ok tt
encode_state-dated state until updated = ground arith

module _ {S V : Type 0} (store : Store S V) (setting : StateSetting store) (m : Memory.Store)
    (s : S) where
  -- What `json.Marshal` makes of a state whose times can be written.
  marshalled :
      (state : GatewayRuntimeState)
      → IsDated state.unhealthy_until
      → IsDated state.updated_at
      → lift (marshal_state store.formats store.json state) s
        ≡ (ok (store.json.print (state_table store.formats state)), s)
  unfolding marshal_state
  marshalled state until updated = rw (encode_state-dated state until updated) refl

  printed-StandsFor :
      (state : GatewayRuntimeState)
      → IsWritable state
      → setting.base.Exact (state_table store.formats state)
      → StandsFor store setting (store.json.print (state_table store.formats state)) state
  printed-StandsFor state (spelled, until, updated, tidy) exact = record {
    table = state_table store.formats state;
    parsed = setting.base.exact.parse-print _ exact;
    decoded = setting.base.exact.decode-print _ exact;
    exact = exact;
    reads = state_table-Reads store.formats state setting.base.laws spelled until updated;
    tidy = tidy;
  }

  -- `Save` over Redis leaves stores that hold the same states, if they did before, where holding the
  -- same states means that the numbers of a stored state are ones cjson keeps, that its probes name
  -- a transaction, and that their milliseconds have at most 14 digits. The conditions on the saved
  -- state: its times are before the year 10000, its kind is not one that merely spells `healthy`,
  -- `unhealthy` or `half_open`, its numbers are ones cjson keeps, there are fewer than 10^14 probes,
  -- and each names a transaction and has milliseconds of at most 14 digits. The gateway and the key
  -- prefix are not empty and have no colon, and the server answers.
  pub save_state-Refines :
      (state : GatewayRuntimeState)
      → IsWritable state
      → setting.base.Exact (state_table store.formats state)
      → Plain state.gateway
      → Related store setting m s
      → Refines store setting (Memory.save state m) (save store state s)
  unfolding Memory.save save
  save_state-Refines state writable exact plain related =
      let (spelled, until, updated, tidy) = writable in
      to_Refines store setting (ok tt, store_state m state.gateway state) _ (ok tt) _ _ refl
        (bind_ok (lift (marshal_state store.formats store.json state)) _ s s _
            (marshalled state until updated)
          ∙ setting.base.server.set-store _ _ s)
        (put-Related store setting m s state.gateway state _ related plain
          (printed-StandsFor state writable exact))

  module _ (g : String) (plain : Plain g) (related : Related store setting m s) where
    found_at :
        (o : Option GatewayRuntimeState)
        → Dict.get m.states g ≡ o
        → Agree store setting o (stored_at store setting s g)
    found_at o e =
        subst (λ o. Agree store setting o (stored_at store setting s g)) e (related g plain)

    got : (p : Option V) → stored_at store setting s g ≡ p → get store g s ≡ (read_state store p, s)
    unfolding get
    got p e =
        bind_ok (store.client.get (state_key store g)) _ s s p
          (setting.base.server.get-stored _ s ∙ ap (λ q. (ok q, s)) e)

    get_missing :
        (p : Option V)
        → stored_at store setting s g ≡ p
        → Agree store setting none p
        → Refines store setting (err not_found, m) (get store g s)
    get_missing (some v) e agree = absurd agree
    get_missing none e agree =
        to_Refines store setting (err not_found, m) _ (err not_found) m s refl (got none e) related

    get_present :
        (state : GatewayRuntimeState) (p : Option V)
        → stored_at store setting s g ≡ p
        → Agree store setting (some state) p
        → Refines store setting (ok state, m) (get store g s)
    get_present state none e agree = absurd agree
    get_present state (some v) e stands =
        to_Refines store setting (ok state, m) _ (ok state) m s refl
          (got (some v) e ∙ ap (λ r. (r, s)) (decode_state-StandsFor store setting v state stands))
          related

    -- `Get` over Redis answers what the in-memory one does, an unknown gateway included, and changes
    -- neither's states, where the stores hold the same states, the numbers of a stored state are ones
    -- cjson keeps, and its probes, fewer than 10^14, name a transaction and have milliseconds of at
    -- most 14 digits; for a gateway and a key prefix that are not empty and have no colon, and
    -- a server that answers.
    pub get_state-Refines : Refines store setting (Memory.get g m) (get store g s)
    get_state-Refines =
        get_cases g 0 m (λ r. Refines store setting r (get store g s))
          (λ e. get_missing _ refl (found_at none e))
          (λ state e. get_present state _ refl (found_at (some state) e))

    ensured :
        (now : Time) (created : Bool) (s' : S)
        → IsDated now
        → store.client.set_nx
            (state_key store g)
            (store.json.print (state_table store.formats (initial g now)))
            s
          ≡ (ok created, s')
        → ensure store g now s ≡ (ok tt, s')
    unfolding ensure
    ensured now created s' dated e =
        bind_ok (lift (marshal_state store.formats store.json (initial g now))) _ s s _
          (marshalled (initial g now) (omega arith) dated)
        ∙ bind_ok
            (store.client.set_nx (state_key store g)
              (store.json.print (state_table store.formats (initial g now))))
            _ s s' created e

    ensure_missing :
        (now : Time) (p : Option V)
        → IsDated now
        → setting.base.Exact (state_table store.formats (initial g now))
        → stored_at store setting s g ≡ p
        → Agree store setting none p
        → Refines store setting (ok tt, store_state m g (initial g now)) (ensure store g now s)
    ensure_missing now (some v) dated exact e agree = absurd agree
    ensure_missing now none dated exact e agree =
        to_Refines store setting (ok tt, store_state m g (initial g now)) _ (ok tt) _ _ refl
          (ensured now true _ dated (setting.base.server.set_nx-none _ _ s e))
          (put-Related store setting m s g (initial g now) _ related plain
            (printed-StandsFor (initial g now) (refl, omega arith, dated, (tt, omega arith)) exact))

    ensure_present :
        (now : Time) (state : GatewayRuntimeState) (p : Option V)
        → IsDated now
        → stored_at store setting s g ≡ p
        → Agree store setting (some state) p
        → Refines store setting (ok tt, m) (ensure store g now s)
    ensure_present now state none dated e agree = absurd agree
    ensure_present now state (some v) dated e stands =
        to_Refines store setting (ok tt, m) _ (ok tt) m s refl
          (ensured now false s dated (setting.base.server.set_nx-some _ _ v s e)) related

    -- `Ensure` over Redis leaves stores that hold the same states, if they did before: it creates the
    -- same healthy state for an unknown gateway, and keeps the state of a known one. The conditions:
    -- the gateway and the key prefix are not empty and have no colon, the time is before the year
    -- 10000, the server answers, cjson keeps the numbers of the created state and of every stored one,
    -- and the probes of a stored state, fewer than 10^14, name a transaction and have milliseconds of
    -- at most 14 digits.
    pub ensure-Refines :
        (now : Time)
        → IsDated now
        → setting.base.Exact (state_table store.formats (initial g now))
        → Refines store setting (Memory.ensure g now m) (ensure store g now s)
    ensure-Refines now dated exact =
        ensure_cases g now m (λ r. Refines store setting r (ensure store g now s))
          (λ e. ensure_missing now _ dated exact refl (found_at none e))
          (λ state e. ensure_present now state _ dated refl (found_at (some state) e))
