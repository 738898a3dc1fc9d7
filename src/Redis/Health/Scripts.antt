-- ===== src/Redis/Health/Scripts.antt =====
-- What the three calls of internal/adapters/repository/redis/gateway_health_repository.go that run a
-- script on a gateway's state have in common: its missing, closed and half-open gateways.
use payment_gateway_router.Common.{
  String, ◌≡◌, refl, ap, ◌∙◌, true, false, Option, none, some, List, [], ◌∷◌, subst,
}
use payment_gateway_router.Go.Dict
use payment_gateway_router.Action.{Action, ◌>>=◌, lift}
use payment_gateway_router.Action.Post.{bind_ok}
use payment_gateway_router.Domain.Errors.{Result, ok, err, not_found}
use payment_gateway_router.Domain.Gateway.{GatewayRuntimeState, is_half_open}
use payment_gateway_router.Memory.Health as Memory
use payment_gateway_router.Memory.Health.{store_state}
use payment_gateway_router.Redis.Key.Splitting.{Plain}
use payment_gateway_router.Redis.Client.{Store}
use payment_gateway_router.Redis.Server.{Table, Reply, word, payload}
use payment_gateway_router.Redis.Health.{state_key, on_half_open, set_and_reply}
use payment_gateway_router.Redis.Health.Refinement.{
  StateSetting, StandsFor, Agree, stored_at, Related, Refines, to_Refines, put-Related, closed,
  opened, set_and_reply_lem,
}

module _ {S V A : Type 0} (store : Store S V) (setting : StateSetting store) (g : String)
    (otherwise : String) (body : Table → Action S (List (Reply V)))
    (read : List (Reply V) → Result A) (m : Memory.Store) (s : S) where
  abbrev pub script : Action S (List (Reply V))
  script = store.client.get (state_key store g) >>= on_half_open store otherwise body

  abbrev pub call : Action S A
  call = store.client.run script >>= λ result. lift (read result)

  replied :
      (p : Option V) (reply : List (Reply V)) (s' : S)
      → stored_at store setting s g ≡ p
      → on_half_open store otherwise body p s ≡ (ok reply, s')
      → call s ≡ (read reply, s')
  replied p reply s' found e =
      bind_ok (store.client.run script) (λ result. lift (read result)) s s' reply
        (setting.base.server.run-script script s
          ∙ bind_ok (store.client.get (state_key store g)) (on_half_open store otherwise body) s s p
              (setting.base.server.get-stored _ s ∙ ap (λ q. (ok q, s)) found)
          ∙ e)

  missing_found :
      (p : Option V)
      → stored_at store setting s g ≡ p
      → Agree store setting none p
      → read (word "missing" ∷ []) ≡ err not_found
      → Related store setting m s
      → Refines store setting (err not_found, m) (call s)
  missing_found (some v) found agree e related = absurd agree
  missing_found none found agree e related =
      to_Refines store setting (err not_found, m) (call s) (err not_found) m s refl
        (replied none _ s found refl ∙ ap (λ r. (r, s)) e) related

  closed_found :
      (state : GatewayRuntimeState) (a : A) (p : Option V)
      → stored_at store setting s g ≡ p
      → Agree store setting (some state) p
      → is_half_open state.state ≡ false
      → ((v : V) → StandsFor store setting v state → read (word otherwise ∷ payload v ∷ []) ≡ ok a)
      → Related store setting m s
      → Refines store setting (ok a, m) (call s)
  closed_found state a none found agree shut e related = absurd agree
  closed_found state a (some v) found stands shut e related =
      to_Refines store setting (ok a, m) (call s) (ok a) m s refl
        (replied (some v) _ s found (closed store setting v state stands s otherwise body shut)
          ∙ ap (λ r. (r, s)) (e v stands))
        related

  -- What the body of the script is to do for a half-open gateway: store a payload of the new
  -- state, and reply with it.
  abbrev pub Moves : GatewayRuntimeState → GatewayRuntimeState → A → Type 0
  Moves state state' a =
      (v : V) (stands : StandsFor store setting v state)
      → (code : String) × (table : Table) × (body stands.table s
          ≡ set_and_reply store (state_key store g) code table s)
        × StandsFor store setting (store.json.encode table) state'
        × (read (word code ∷ payload (store.json.encode table) ∷ []) ≡ ok a)

  half_found :
      (state state' : GatewayRuntimeState) (a : A) (p : Option V)
      → stored_at store setting s g ≡ p
      → Agree store setting (some state) p
      → is_half_open state.state ≡ true
      → Plain g
      → Moves state state' a
      → Related store setting m s
      → Refines store setting (ok a, store_state m g state') (call s)
  half_found state state' a none found agree half plain moves related = absurd agree
  half_found state state' a (some v) found stands half plain moves related =
      let (code, table, moved, stands', answered) = moves v stands in
      to_Refines store setting (ok a, store_state m g state') (call s) (ok a)
        (store_state m g state') _ refl
        (replied (some v) _ _ found (
            opened store setting v state stands s otherwise body half
            ∙ moved
            ∙ set_and_reply_lem store setting (state_key store g) code table s)
          ∙ ap (λ r. (r, setting.base.server.store (state_key store g) (store.json.encode table) s))
              answered)
        (put-Related store setting m s g state' _ related plain stands')

  module _ (plain : Plain g) (related : Related store setting m s) where
    found_at :
        (o : Option GatewayRuntimeState)
        → Dict.get m.states g ≡ o
        → Agree store setting o (stored_at store setting s g)
    found_at o e =
        subst (λ o. Agree store setting o (stored_at store setting s g)) e (related g plain)

    pub call_missing :
        Dict.get m.states g ≡ none
        → read (word "missing" ∷ []) ≡ err not_found
        → Refines store setting (err not_found, m) (call s)
    call_missing e answered = missing_found _ refl (found_at none e) answered related

    pub call_closed :
        (state : GatewayRuntimeState) (a : A)
        → Dict.get m.states g ≡ some state
        → is_half_open state.state ≡ false
        → ((v : V)
            → StandsFor store setting v state
            → read (word otherwise ∷ payload v ∷ []) ≡ ok a)
        → Refines store setting (ok a, m) (call s)
    call_closed state a e shut answered =
        closed_found state a _ refl (found_at (some state) e) shut answered related

    pub call_half :
        (state state' : GatewayRuntimeState) (a : A)
        → Dict.get m.states g ≡ some state
        → is_half_open state.state ≡ true
        → Moves state state' a
        → Refines store setting (ok a, store_state m g state') (call s)
    call_half state state' a e half moves =
        half_found state state' a _ refl (found_at (some state) e) half plain moves related
