-- ===== src/Redis/Health/Refinement.antt =====
-- internal/adapters/repository/redis/gateway_health_repository.go against its in-memory counterpart:
-- what a stored payload stands for, and the steps that the scripts share.
use payment_gateway_router.Common.{
  ◌<◌, ◌+◌, ◌^◌, String, ◌≡◌, refl, ap, ◌∙◌, Bool, true, false, Option, none, some, List, [], ◌∷◌,
  map, keep, length, All, str_eq, arith, length-keep-le, Bool-cases, inl, inr,
}
use payment_gateway_router.Go.Int.{ℤ, pos_part, neg_part}
use payment_gateway_router.Go.Time.{Time}
use payment_gateway_router.Go.Dict
use payment_gateway_router.Go.Dict.{get-put}
use payment_gateway_router.Action.{Action, ◌>>=◌, lift}
use payment_gateway_router.Action.Post.{bind_ok}
use payment_gateway_router.Domain.Errors.{Result, ok}
use payment_gateway_router.Domain.Gateway.{GatewayRuntimeState, HalfOpenProbe, is_half_open}
use payment_gateway_router.Memory.Health as Memory
use payment_gateway_router.Memory.Health.{store_state, with_probes, is_live}
use payment_gateway_router.Redis.Key.Splitting.{Plain, key_eq, second_part}
use payment_gateway_router.Redis.Client.{Store, Setting}
use payment_gateway_router.Redis.Server.{IsDated, Table, Row, Reply, word, payload}
use payment_gateway_router.Redis.States.{row_of, decode_state, active_rows, updated, rows_of}
use payment_gateway_router.Redis.States.Reading.{
  ReadsState, IsNamed, table_state-Reads, active_rows-map, rows_of-map, updated-Reads,
  half_open_test,
}
use payment_gateway_router.Redis.Health.{state_key, on_half_open, set_and_reply}

-- A probe that names a transaction, with a time of at most 14 digits.
abbrev pub Tidy : HalfOpenProbe → Type 0
Tidy probe =
    IsNamed probe
    × (pos_part probe.expires_at_unix_milli + neg_part probe.expires_at_unix_milli < 10 ^ 14)

abbrev pub TidyProbes : List HalfOpenProbe → Type 0
TidyProbes probes = All Tidy probes × (length probes < 10 ^ 14)

pub keep-Tidy :
    (f : HalfOpenProbe → Bool) (ps : List HalfOpenProbe) → All Tidy ps → All Tidy (keep f ps)
keep-Tidy f [] h = tt
keep-Tidy f (p ∷ ps) (h, hs) = elim (Bool-cases (f p)) [
  | inl e ↦ rw e (h, keep-Tidy f ps hs)
  | inr e ↦ rw e (keep-Tidy f ps hs)
]

pub keep-TidyProbes :
    (f : HalfOpenProbe → Bool) (ps : List HalfOpenProbe) → TidyProbes ps → TidyProbes (keep f ps)
keep-TidyProbes f ps (tidy, short) = (keep-Tidy f ps tidy, omega (arith, length-keep-le f ps))

Tidy-IsNamed : (ps : List HalfOpenProbe) → All Tidy ps → All IsNamed ps
Tidy-IsNamed [] h = tt
Tidy-IsNamed (p ∷ ps) ((named, short), hs) = (named, Tidy-IsNamed ps hs)

-- What is taken for granted beside a `Setting`: cjson keeps a table whose probes, count and time
-- are replaced, since their numbers have at most 14 digits.
pub record StateSetting {S V : Type 0} (store : Store S V) : Type 1 where
  pub base : Setting store
  pub with_probes :
      (table : Table) (probes : List HalfOpenProbe) (at : String)
      → TidyProbes probes
      → base.Exact table
      → base.Exact (updated store.formats table (map (row_of store.formats) probes) at)

module _ {S V : Type 0} (store : Store S V) (setting : StateSetting store) where
  -- A payload that stands for a state.
  pub record StandsFor (v : V) (state : GatewayRuntimeState) : Type 0 where
    pub table : Table
    pub parsed : store.json.parse v ≡ ok table
    pub decoded : store.json.decode v ≡ ok table
    pub exact : setting.base.Exact table
    pub reads : ReadsState store.formats table state
    pub tidy : TidyProbes state.half_open_probes

  abbrev pub Agree : Option GatewayRuntimeState → Option V → Type 0
  Agree none none = Unit
  Agree (some state) (some v) = StandsFor v state
  Agree _ _ = ⊥

  abbrev pub stored_at : S → String → Option V
  stored_at s gateway = setting.base.server.stored s (state_key store gateway)

  -- The server holds the states that the in-memory repository holds.
  abbrev pub Related : Memory.Store → S → Type 0
  Related m s = (g : String) → Plain g → Agree (Dict.get m.states g) (stored_at s g)

  abbrev pub Refines : {A : Type 0} → Result A × Memory.Store → Result A × S → Type 0
  Refines (r, m) (r', s) = (r' ≡ r) × Related m s

  pub to_Refines :
      {A : Type 0} (x : Result A × Memory.Store) (y : Result A × S) (r : Result A)
      (m : Memory.Store) (s : S)
      → x ≡ (r, m)
      → y ≡ (r, s)
      → Related m s
      → Refines x y
  to_Refines x y r m s e f related = rw (e, f) (refl, related)

  state_key_eq :
      (g g' : String)
      → Plain g
      → Plain g'
      → str_eq (state_key store g) (state_key store g') ≡ str_eq g g'
  unfolding second_part
  state_key_eq g g' h k =
      key_eq store.key_prefix (λ z. "gateway" ∷ z ∷ "state" ∷ []) second_part g g' (λ z. refl)
        (setting.base.prefixed, ((refl, refl), (h, ((refl, refl), tt))))
        (setting.base.prefixed, ((refl, refl), (k, ((refl, refl), tt))))

  pub put-Related :
      (m : Memory.Store) (s : S) (g : String) (state : GatewayRuntimeState) (v : V)
      → Related m s
      → Plain g
      → StandsFor v state
      → Related (store_state m g state) (setting.base.server.store (state_key store g) v s)
  put-Related m s g state v h plain stands g' named = elim (Bool-cases (str_eq g g')) [
    | inl e ↦
        rw (get-put, setting.base.server.stored-store, state_key_eq g g' plain named, e) stands
    | inr e ↦
        rw (get-put, setting.base.server.stored-store, state_key_eq g g' plain named, e)
          (h g' named)
  ]

  pub decode_state-StandsFor :
      (v : V) (state : GatewayRuntimeState)
      → StandsFor v state
      → decode_state store.formats store.json v ≡ ok state
  unfolding decode_state
  decode_state-StandsFor v state stands =
      rw stands.parsed
        (table_state-Reads store.formats setting.base.laws stands.table state stands.reads)

  -- The payload that a script writes, for the probes that stay.
  pub updated-StandsFor :
      (v : V) (state : GatewayRuntimeState) (ps : List HalfOpenProbe) (at : Time)
      → IsDated at
      → TidyProbes ps
      → (stands : StandsFor v state)
      → StandsFor
          (store.json.encode (
            updated store.formats stands.table
              (map (row_of store.formats) ps)
              (store.formats.format_time at)))
          (record (with_probes state ps) { updated_at = at })
  updated-StandsFor v state ps at dated tidy stands =
      let table' : Table =
        updated store.formats stands.table (map (row_of store.formats) ps)
          (store.formats.format_time at) in
      let kept : setting.base.Exact table' =
        setting.with_probes stands.table ps (store.formats.format_time at) tidy stands.exact in
      record {
        table = table';
        parsed = setting.base.exact.parse-encode table' kept;
        decoded = setting.base.exact.decode-encode table' kept;
        exact = kept;
        reads =
            updated-Reads store.formats setting.base.laws stands.table state ps at dated
              stands.reads;
        tidy = tidy;
      }

  module _ (v : V) (state : GatewayRuntimeState) (stands : StandsFor v state) (s : S) where
    pub closed :
        (otherwise : String) (body : Table → Action S (List (Reply V)))
        → is_half_open state.state ≡ false
        → on_half_open store otherwise body (some v) s ≡ (ok (word otherwise ∷ payload v ∷ []), s)
    closed otherwise body e =
        bind_ok (lift (store.json.decode v)) _ s s stands.table (rw stands.decoded refl)
        ∙ rw (half_open_test store.formats stands.table state stands.reads ∙ e) refl

    pub opened :
        (otherwise : String) (body : Table → Action S (List (Reply V)))
        → is_half_open state.state ≡ true
        → on_half_open store otherwise body (some v) s ≡ body stands.table s
    opened otherwise body e =
        bind_ok (lift (store.json.decode v)) _ s s stands.table (rw stands.decoded refl)
        ∙ rw (half_open_test store.formats stands.table state stands.reads ∙ e) refl

    pub with_active_rows :
        (now : ℤ) (f : List Row → Action S (List (Reply V)))
        → (lift (active_rows store.formats now (rows_of (stands.table "half_open_probes"))) >>= f) s
          ≡ f (map (row_of store.formats) (keep (is_live now) state.half_open_probes)) s
    with_active_rows now f =
        bind_ok (lift (active_rows store.formats now (rows_of (stands.table "half_open_probes")))) f
          s s _
          (ap (λ r. (r, s))
            (ap (active_rows store.formats now) (
                ap rows_of stands.reads.probes
                ∙ rows_of-map store.formats setting.base.laws state.half_open_probes)
              ∙ active_rows-map store.formats setting.base.laws now state.half_open_probes
                  (Tidy-IsNamed _ stands.tidy.0)))

  pub set_and_reply_lem :
      (at_key code : String) (table : Table) (s : S)
      → set_and_reply store at_key code table s ≡ (
        ok (word code ∷ payload (store.json.encode table) ∷ []),
        setting.base.server.store at_key (store.json.encode table) s,
      )
  set_and_reply_lem at_key code table s =
      bind_ok (store.client.set at_key (store.json.encode table)) _ s _ tt
        (setting.base.server.set-store at_key _ s)
