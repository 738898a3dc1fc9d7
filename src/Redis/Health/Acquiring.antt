-- ===== src/Redis/Health/Acquiring.antt =====
-- `TryAcquireHalfOpenProbe` of internal/adapters/repository/redis/gateway_health_repository.go against
-- its in-memory counterpart.
use payment_gateway_router.Common.{
  ℕ, ◌<◌, ◌+◌, ◌^◌, String, ◌≡◌, refl, sym, ap, ◌∙◌, Bool, true, false, List, [], ◌∷◌, ◌++◌, map,
  length, All, length-append, arith, str_eq, subst, if◌then◌else◌, Bool-cases, inl, inr,
}
use payment_gateway_router.Go.Int.{ℤ, pos, pos_part, leb_ℤ}
use payment_gateway_router.Go.Time.{Time, unix_milli}
use payment_gateway_router.Go.Dict.{get-put}
use payment_gateway_router.Action.{Action}
use payment_gateway_router.Domain.Errors.{Result, ok, err}
use payment_gateway_router.Domain.Gateway.{GatewayRuntimeState, HalfOpenProbe, is_half_open}
use payment_gateway_router.Memory.Health as Memory
use payment_gateway_router.Memory.Health.{store_state, is_live, with_probes, add_probe}
use payment_gateway_router.Memory.Health.Cases.{acquire_cases, pruned, live}
use payment_gateway_router.Redis.Key.Splitting.{Plain}
use payment_gateway_router.Redis.Client.{Store}
use payment_gateway_router.Redis.Server.{IsDated, Table, Reply, Row, Formats}
use payment_gateway_router.Redis.States.Reading.{length-map}
use payment_gateway_router.Redis.States.{row_of, updated, with_active}
use payment_gateway_router.Redis.Health.{
  state_key, set_and_reply, acquire_script, acquire_active, read_reply, try_acquire_half_open_probe,
}
use payment_gateway_router.Redis.Health.Refinement.{
  StateSetting, Related, Refines, decode_state-StandsFor, updated-StandsFor, with_active_rows,
  keep-TidyProbes, Tidy, TidyProbes,
}
use payment_gateway_router.Redis.Health.Scripts.{call, Moves, call_missing, call_closed, call_half}
use payment_gateway_router.Redis.Health.Equivalence.{on_active}

-- What the script sets before it appends a row is set again after it.
set_twice_at :
    (formats : Formats) (table : Table) (active others : List Row) (row : Row) (at name : String)
    → updated formats (with_active formats table active) (row ∷ others) at name
      ≡ updated formats table (row ∷ others) at name
set_twice_at formats table [] others row at name = ground arith
set_twice_at formats table (r ∷ rs) others row at name = ground arith

set_twice :
    (formats : Formats) (table : Table) (active others : List Row) (row : Row) (at : String)
    → updated formats (with_active formats table active) (row ∷ others) at
      ≡ updated formats table (row ∷ others) at
set_twice formats table active others row at =
    λ i name. set_twice_at formats table active others row at name i

set_again :
    (formats : Formats) (table : Table) (active : List Row) (row : Row) (at : String)
    → updated formats (with_active formats table active) (active ++ row ∷ []) at
      ≡ updated formats table (active ++ row ∷ []) at
set_again formats table [] row at = set_twice formats table [] [] row at
set_again formats table (r ∷ rs) row at = set_twice formats table (r ∷ rs) (rs ++ row ∷ []) r at

map-append : {A B : Type 0} (f : A → B) (xs ys : List A) → map f (xs ++ ys) ≡ map f xs ++ map f ys
map-append f [] ys = refl
map-append f (x ∷ xs) ys = ap (λ zs. f x ∷ zs) (map-append f xs ys)

append-Tidy : (ps qs : List HalfOpenProbe) → All Tidy ps → All Tidy qs → All Tidy (ps ++ qs)
append-Tidy [] qs h k = k
append-Tidy (p ∷ ps) qs (h, hs) k = (h, append-Tidy ps qs hs k)

-- The in-memory repository does not set `UpdatedAt` when no probe is free; Redis does.
abbrev pub stamped :
    String
    → Time
    → Result (GatewayRuntimeState × Bool) × Memory.Store
    → Result (GatewayRuntimeState × Bool) × Memory.Store
stamped g now (err e, m) = (err e, m)
stamped g now (ok (state, acquired), m) =
    let state' = record state { updated_at = now } in
    if is_half_open state.state
    then (ok (state', acquired), store_state m g state')
    else (ok (state, acquired), m)

module _ {S V : Type 0} (store : Store S V) (setting : StateSetting store) (g t : String) (max : ℤ)
    (expires now : Time) (m : Memory.Store) (s : S) where
  abbrev acquire_body : Table → Action S (List (Reply V))
  acquire_body = on_active store setting g now m s (λ state active.
      acquire_active store (state_key store g) max t (unix_milli expires)
        (store.formats.format_time now) state active)

  abbrev acquire : Action S (GatewayRuntimeState × Bool)
  acquire = call store setting g "not_half_open" acquire_body (read_reply store "acquired") m s

  acquire_call : try_acquire_half_open_probe store g t max expires now s ≡ acquire s
  unfolding try_acquire_half_open_probe acquire_script
  acquire_call = refl

  -- A state that is stored over another.
  stored_twice :
      (a b : GatewayRuntimeState) (x : Result (GatewayRuntimeState × Bool))
      (y : Result (GatewayRuntimeState × Bool) × S)
      → Refines store setting (x, store_state m g b) y
      → Refines store setting (x, store_state (store_state m g a) g b) y
  stored_twice a b x y (same, related) = (
    same,
    λ g' named. elim (Bool-cases (str_eq g g')) [
      | inl e ↦ rw (get-put, e) (rw (get-put, e) at (related g' named))
      | inr e ↦ rw (get-put, e, get-put, e) (rw (get-put, e) at (related g' named))
    ],
  )

  room_left : (n : ℕ) → leb_ℤ max (pos n) ≡ false → pos_part max < 10 ^ 14 → n + 1 < 10 ^ 14
  room_left n free few = ground arith

  length-live :
      (state : GatewayRuntimeState)
      → leb_ℤ max (pos (length (map (row_of store.formats) (live state now))))
        ≡ leb_ℤ max (pos (length (live state now)))
  length-live state =
      ap (λ n. leb_ℤ max (pos n)) (length-map (row_of store.formats) (live state now))

  full_half :
      (state : GatewayRuntimeState)
      → IsDated now
      → leb_ℤ max (pos (length (live state now))) ≡ true
      → Moves store setting g "not_half_open" acquire_body
          (read_reply store "acquired")
          m
          s
          state
          (pruned state now)
          (pruned state now, false)
  full_half state dated full v stands =
      let tidy = keep-TidyProbes (is_live (unix_milli now)) state.half_open_probes stands.tidy in
      let stands' =
        updated-StandsFor store setting v state (live state now) now dated tidy stands in
      (
        "full",
        _,
        with_active_rows store setting v state stands s (unix_milli now) _
            ∙ rw (length-live state ∙ full) refl,
        stands',
        rw (decode_state-StandsFor store setting _ (pruned state now) stands') refl,
      )

  abbrev new_probe : HalfOpenProbe
  new_probe = record { transaction_id = t; expires_at_unix_milli = unix_milli expires }

  free_half :
      (state : GatewayRuntimeState)
      → IsDated now
      → Tidy new_probe
      → pos_part max < 10 ^ 14
      → leb_ℤ max (pos (length (live state now))) ≡ false
      → Moves store setting g "not_half_open" acquire_body
          (read_reply store "acquired")
          m
          s
          state
          (add_probe (with_probes state (live state now)) t expires now)
          (add_probe (with_probes state (live state now)) t expires now, true)
  free_half state dated named few free v stands =
      let kept = keep-TidyProbes (is_live (unix_milli now)) state.half_open_probes stands.tidy in
      let ps = live state now ++ new_probe ∷ [] in
      let tidy : TidyProbes ps = (
        append-Tidy (live state now) (new_probe ∷ []) kept.0 (named, tt),
        omega (
          arith,
          length-append (live state now) (new_probe ∷ []),
          room_left (length (live state now)) free few,
        ),
      ) in
      let acquired = add_probe (with_probes state (live state now)) t expires now in
      let stands' = updated-StandsFor store setting v state ps now dated tidy stands in
      let at = store.formats.format_time now in
      (
        "acquired",
        updated store.formats stands.table (map (row_of store.formats) ps) at,
        with_active_rows store setting v state stands s (unix_milli now) _
            ∙ rw (length-live state ∙ free) (
                ap (λ table. set_and_reply store (state_key store g) "acquired" table s)
                  (set_again store.formats stands.table
                      (map (row_of store.formats) (live state now)) (row_of store.formats new_probe)
                      at
                    ∙ ap (λ rs. updated store.formats stands.table rs at)
                        (sym
                          (map-append (row_of store.formats) (live state now) (new_probe ∷ []))))),
        stands',
        rw (decode_state-StandsFor store setting _ acquired stands') refl,
      )

  -- `TryAcquireHalfOpenProbe` over Redis answers what the in-memory one answers, and whether a probe
  -- was acquired, an unknown or closed gateway included, and leaves stores that hold the same states, if
  -- the stores did before, but for one difference: when no probe is free, Redis sets the state's
  -- `UpdatedAt` to the time of the call, which `stamped` does to the in-memory answer. The gateway and
  -- the key prefix are not empty and have no colon, neither the transaction's ID nor that of a stored
  -- probe is empty, the time is before the year 10000, the limit and the milliseconds of the expiry have
  -- at most 14 digits, the server answers, and cjson keeps the stored numbers.
  pub acquire-Refines :
      IsDated now
      → Plain g
      → Tidy new_probe
      → pos_part max < 10 ^ 14
      → Related store setting m s
      → Refines store setting
          (stamped g now (Memory.try_acquire_half_open_probe g t max expires now m))
          (try_acquire_half_open_probe store g t max expires now s)
  acquire-Refines dated plain named few related =
      subst
        (Refines store setting
          (stamped g now (Memory.try_acquire_half_open_probe g t max expires now m)))
        (sym acquire_call)
        (acquire_cases g t now m max expires
          (λ r. Refines store setting (stamped g now r) (acquire s))
          (λ e.
            call_missing store setting g "not_half_open" acquire_body (read_reply store "acquired")
              m s plain related e refl)
          (λ state e shut. rw shut (
            call_closed store setting g "not_half_open" acquire_body (read_reply store "acquired") m
              s plain related state (state, false) e shut
              (λ v stands. rw (decode_state-StandsFor store setting v state stands) refl)))
          (λ state e half full. rw half (
            stored_twice (with_probes state (live state now)) (pruned state now)
              (ok (pruned state now, false)) (acquire s)
              (call_half store setting g "not_half_open" acquire_body (read_reply store "acquired")
                m s plain related state (pruned state now) (pruned state now, false) e half
                (full_half state dated full))))
          (λ state e half free.
            let acquired = add_probe (with_probes state (live state now)) t expires now in
            rw half (
              stored_twice acquired acquired (ok (acquired, true)) (acquire s) (
                call_half store setting g "not_half_open" acquire_body (read_reply store "acquired")
                  m s plain related state acquired (acquired, true) e half
                  (free_half state dated named few free)))))
