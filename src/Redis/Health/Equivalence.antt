-- ===== src/Redis/Health/Equivalence.antt =====
-- The calls of internal/adapters/repository/redis/gateway_health_repository.go that run a script on a
-- gateway's state, against their in-memory counterparts.
use payment_gateway_router.Common.{
  String, ◌≡◌, refl, sym, ap, ◌∙◌, Bool, true, false, not, List, [], ◌∷◌, subst, if◌then◌else◌,
}
use payment_gateway_router.Go.Time.{Time, unix_milli}
use payment_gateway_router.Action.{Action, ◌>>=◌, lift}
use payment_gateway_router.Domain.Errors
use payment_gateway_router.Domain.Errors.{Result, ok, err, not_found}
use payment_gateway_router.Domain.Gateway.{GatewayRuntimeState}
use payment_gateway_router.Memory.Health as Memory
use payment_gateway_router.Memory.Health.{store_state, is_live, with_probes, is_probe_of}
use payment_gateway_router.Memory.Health.Cases.{
  prune_cases, release_cases, pruned, released, live, others, holds,
}
use payment_gateway_router.Redis.Key.Splitting.{Plain}
use payment_gateway_router.Redis.Client.{Store}
use payment_gateway_router.Redis.Server.{IsDated, Table, Reply, word, payload, Row}
use payment_gateway_router.Redis.States.{updated, active_rows, rows_of, release_rows}
use payment_gateway_router.Redis.States.Reading.{release_rows-map}
use payment_gateway_router.Redis.Health.{
  state_key, set_and_reply, prune_script, release_script, read_reply,
  prune_expired_half_open_probes, release_half_open_probe,
}
use payment_gateway_router.Redis.Health.Refinement.{
  StateSetting, StandsFor, Related, Refines, decode_state-StandsFor, updated-StandsFor,
  with_active_rows, keep-TidyProbes,
}
use payment_gateway_router.Redis.Health.Scripts.{call, Moves, call_missing, call_closed, call_half}

module _ {S V : Type 0} (store : Store S V) (setting : StateSetting store) (g : String) (now : Time)
    (m : Memory.Store) (s : S) where
  abbrev pub on_active :
      (Table → List Row → Action S (List (Reply V))) → Table → Action S (List (Reply V))
  on_active f state =
      lift (active_rows store.formats (unix_milli now) (rows_of (state "half_open_probes")))
      >>= f state

  abbrev prune_body : Table → Action S (List (Reply V))
  prune_body = on_active (λ state active.
      set_and_reply store (state_key store g) "ok"
        (updated store.formats state active (store.formats.format_time now)))

  abbrev read_prune : List (Reply V) → Result GatewayRuntimeState
  read_prune result = Errors.◌>>=◌ (read_reply store "ok" result) λ found. ok found.0

  prune_call :
      prune_expired_half_open_probes store g now s
      ≡ call store setting g "ok" prune_body read_prune m s s
  unfolding prune_expired_half_open_probes prune_script
  prune_call = refl

  -- `PruneExpiredHalfOpenProbes` over Redis answers what the in-memory one answers, an unknown or closed
  -- gateway included, and leaves stores that hold the same states, if the stores did before and no
  -- stored probe lacks a transaction ID: for a gateway and a key prefix that are not empty and have
  -- no colon, a time before the year 10000, a server that answers, and numbers that cjson keeps.
  pub prune-Refines :
      IsDated now
      → Plain g
      → Related store setting m s
      → Refines store setting
          (Memory.prune_expired_half_open_probes g now m)
          (prune_expired_half_open_probes store g now s)
  prune-Refines dated plain related =
      subst (Refines store setting (Memory.prune_expired_half_open_probes g now m)) (sym prune_call)
        (prune_cases g now m
          (λ r. Refines store setting r (call store setting g "ok" prune_body read_prune m s s))
          (λ e. call_missing store setting g "ok" prune_body read_prune m s plain related e refl)
          (λ state e shut.
            call_closed store setting g "ok" prune_body read_prune m s plain related state state e
              shut (λ v stands. rw (decode_state-StandsFor store setting v state stands) refl))
          (λ state e half.
            call_half store setting g "ok" prune_body read_prune m s plain related state
              (pruned state now) (pruned state now) e half
              (λ v stands.
                let tidy =
                  keep-TidyProbes (is_live (unix_milli now)) state.half_open_probes stands.tidy in
                let stands' =
                  updated-StandsFor store setting v state (live state now) now dated tidy stands in
                (
                  "ok",
                  _,
                  with_active_rows store setting v state stands s (unix_milli now) _,
                  stands',
                  rw (decode_state-StandsFor store setting _ (pruned state now) stands') refl,
                ))))

  module _ (t : String) where
    abbrev release_body : Table → Action S (List (Reply V))
    release_body = on_active (λ state active.
        let (staying, released) = release_rows t active in
        set_and_reply store (state_key store g) (if released then "released" else "not_found")
          (updated store.formats state staying (store.formats.format_time now)))

    release_call :
        release_half_open_probe store g t now s
        ≡ call store setting g "not_half_open" release_body (read_reply store "released") m s s
    unfolding release_half_open_probe release_script
    release_call = refl

    read_released :
        (found : Bool) (v : V) (state : GatewayRuntimeState)
        → StandsFor store setting v state
        → read_reply store "released"
            (word (if found then "released" else "not_found") ∷ payload v ∷ [])
          ≡ ok (state, found)
    read_released true v state stands =
        rw (decode_state-StandsFor store setting v state stands) refl
    read_released false v state stands =
        rw (decode_state-StandsFor store setting v state stands) refl

    release_half :
        (state : GatewayRuntimeState)
        → IsDated now
        → Moves store setting g "not_half_open" release_body
            (read_reply store "released")
            m
            s
            state
            (released state t now)
            (released state t now, holds t (live state now))
    release_half state dated v stands =
        let kept = keep-TidyProbes (is_live (unix_milli now)) state.half_open_probes stands.tidy in
        let tidy = keep-TidyProbes (λ p. not (is_probe_of t p)) (live state now) kept in
        let stands' =
          updated-StandsFor store setting v state (others t (live state now)) now dated tidy
            stands in
        let reply : List Row × Bool → Result (List (Reply V)) × S = λ q.
          set_and_reply store (state_key store g) (if q.1 then "released" else "not_found")
            (updated store.formats stands.table q.0 (store.formats.format_time now)) s in
        (
          if holds t (live state now) then "released" else "not_found",
          _,
          with_active_rows store setting v state stands s (unix_milli now) _
              ∙ ap reply (release_rows-map store.formats setting.base.laws t (live state now)),
          stands',
          read_released (holds t (live state now)) _ (released state t now) stands',
        )

    -- `ReleaseHalfOpenProbe` over Redis answers what the in-memory one answers, and whether a probe of
    -- the transaction was released, an unknown or closed gateway included, and leaves stores that hold
    -- the same states, if the stores did before and no stored probe lacks a transaction ID: for
    -- a gateway and a key prefix that are not empty and have no colon, a time before the year 10000, a
    -- server that answers, and numbers that cjson keeps.
    pub release-Refines :
        IsDated now
        → Plain g
        → Related store setting m s
        → Refines store setting
            (Memory.release_half_open_probe g t now m)
            (release_half_open_probe store g t now s)
    release-Refines dated plain related =
        subst (Refines store setting (Memory.release_half_open_probe g t now m)) (sym release_call)
          (release_cases g t now m
            (λ r. Refines store setting r (
              call store setting g "not_half_open" release_body (read_reply store "released") m s
                s))
            (λ e.
              call_missing store setting g "not_half_open" release_body
                (read_reply store "released") m s plain related e refl)
            (λ state e shut.
              call_closed store setting g "not_half_open" release_body (read_reply store "released")
                m s plain related state (state, false) e shut
                (λ v stands. rw (decode_state-StandsFor store setting v state stands) refl))
            (λ state e half.
              call_half store setting g "not_half_open" release_body (read_reply store "released") m
                s plain related state (released state t now) _ e half (release_half state dated)))
