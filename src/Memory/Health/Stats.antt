-- ===== src/Memory/Health/Stats.antt =====
-- The statistics of internal/adapters/repository/memory/gateway_health_repository.go: `StatsSince`
-- and `RecordEvent`.
use native.Mathlib.Nat.{add-zero, zero-add}
use mathlib.Core.Path.{ap₂}
use payment_gateway_router.Common.{
  ℕ, ◌+◌, ◌≤◌, ◌≡◌, refl, ◌∙◌, ap, String, Bool, true, false, not, ◌&&◌, List, [], ◌∷◌, ◌++◌, arith,
  count, keep, if◌then◌else◌, ltb, suc, str_eq, leb,
}
use payment_gateway_router.Go.Float64
use payment_gateway_router.Go.Time.{Time, Duration, before, add_neg}
use payment_gateway_router.Domain.Errors.{ok}
use payment_gateway_router.Domain.Transaction.{
  TransactionStatus, pending, success, failure, other, status_eq,
}
use payment_gateway_router.Domain.Gateway.{GatewayEvent, GatewayStats}
use payment_gateway_router.Memory.Health.{
  Store, in_window, tally, stats_loop, stats_since, with_rate, no_stats, record_event,
}

-- An event of the gateway from `since` to `until`, with the status.
abbrev pub is_counted : TransactionStatus → String → Time → Time → GatewayEvent → Bool
is_counted status g since until e =
    (str_eq e.gateway g && leb since e.created_at && leb e.created_at until)
    && status_eq e.status status

-- What the loop does not skip.
in_window_lem :
    (g : String) (since until : Time) (e : GatewayEvent)
    → in_window g since until e
      ≡ (str_eq e.gateway g && leb since e.created_at && leb e.created_at until)
in_window_lem g since until e = ground arith

-- The statistics of given numbers of outcomes.
abbrev pub stats_of : String → ℕ → ℕ → GatewayStats
stats_of g successes failures = record {
  gateway = g;
  successes = successes;
  failures = failures;
  total = successes + failures;
  success_rate =
      if ltb 0 (successes + failures)
      then Float64.div (Float64.of_ℕ successes) (Float64.of_ℕ (successes + failures))
      else Float64.of_ℕ 0;
}

loop_start : String → ℕ → ℕ → GatewayStats
loop_start g k f = record (no_stats g) { successes = k; failures = f }

tally_lem :
    (g : String) (b : Bool) (status : TransactionStatus) (k f : ℕ)
    → (if b then tally (loop_start g k f) status else loop_start g k f)
      ≡ loop_start g
          (k + (if b && status_eq status success then 1 else 0))
          (f + (if b && status_eq status failure then 1 else 0))
unfolding loop_start
tally_lem g false status k f = simp add-zero
tally_lem g true pending k f = simp add-zero
tally_lem g true success k f = simp add-zero
tally_lem g true failure k f = simp add-zero
tally_lem g true (other t) k f = simp add-zero

count_step : (b : Bool) (k n : ℕ) → k + (if b then 1 else 0) + n ≡ k + (if b then suc n else n)
count_step true k n = omega arith
count_step false k n = omega arith

stats_loop_lem :
    (g : String) (since until : Time) (es : List GatewayEvent) (k f : ℕ)
    → stats_loop g since until es (loop_start g k f)
      ≡ loop_start g
          (k + count (is_counted success g since until) es)
          (f + count (is_counted failure g since until) es)
unfolding stats_loop
stats_loop_lem g since until [] k f = simp add-zero
stats_loop_lem g since until (e ∷ es) k f =
    let won : Bool = is_counted success g since until e in
    let lost : Bool = is_counted failure g since until e in
    ap (stats_loop g since until es) (
      rw (in_window_lem g since until e) (
        tally_lem g (str_eq e.gateway g && leb since e.created_at && leb e.created_at until)
          e.status k f))
    ∙ stats_loop_lem g since until es (k + (if won then 1 else 0)) (f + (if lost then 1 else 0))
    ∙ ap₂ (loop_start g) (count_step won k (count (is_counted success g since until) es))
        (count_step lost f (count (is_counted failure g since until) es))

-- `StatsSince` answers with the numbers of the gateway's successes and failures from `since` to
-- `until`, both ends included, their sum, and their rate (0 where there are none), and changes
-- nothing.
pub stats_since_lem :
    (g : String) (since until : Time) (bucket : Duration) (s : Store)
    → stats_since g since until bucket s ≡ (
      ok (
          stats_of g
            (count (is_counted success g since until) s.events)
            (count (is_counted failure g since until) s.events)),
      s,
    )
unfolding stats_since with_rate loop_start
stats_since_lem g since until bucket s =
    rw (stats_loop_lem g since until s.events 0 0) (simp zero-add)

count-keep :
    (p q : GatewayEvent → Bool) (es : List GatewayEvent)
    → ((e : GatewayEvent) → p e ≡ true → q e ≡ true)
    → count p (keep q es) ≡ count p es
count-keep p q [] h = refl
count-keep p q (e ∷ es) h = ground (arith, h e, count-keep p q es h)

count-append :
    (p : GatewayEvent → Bool) (xs ys : List GatewayEvent)
    → count p (xs ++ ys) ≡ count p xs + count p ys
count-append p [] ys = omega arith
count-append p (x ∷ xs) ys = ground (arith, count-append p xs ys)

-- Recording an event whose retention reaches back to the start of a window adds that event to the
-- window's counts, if it lies in the window, and loses no other event of the window.
pub count-record_event :
    (status : TransactionStatus) (g : String) (since until : Time) (e : GatewayEvent)
    (retention : Duration) (s : Store)
    → add_neg e.created_at retention ≤ since
    → count (is_counted status g since until) (record_event e retention s).1.events
      ≡ count (is_counted status g since until) s.events
        + (if is_counted status g since until e then 1 else 0)
unfolding record_event
count-record_event status g since until e retention s h =
    let p : GatewayEvent → Bool = is_counted status g since until in
    let q : GatewayEvent → Bool = λ x. not (before x.created_at (add_neg e.created_at retention)) in
    omega (
      arith,
      count-append p (keep q s.events) (e ∷ []),
      count-keep p q s.events (λ x k. ground arith),
      ap (λ n. n + 0) (count_step (p e) 0 0),
    )
