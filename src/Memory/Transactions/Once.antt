-- ===== src/Memory/Transactions/Once.antt =====
-- How often a transaction is completed: `Complete` of
-- internal/adapters/repository/memory/transaction_repository.go in a sequence of calls.
use payment_gateway_router.Common.{
  ℕ, ◌+◌, ◌≤◌, ◌≡◌, refl, String, Bool, true, false, ◌&&◌, List, [], ◌∷◌, arith, str_eq, eq_iff,
  eq_refl, Option-cases, Bool-cases, inl, inr, if◌then◌else◌, some,
}
use payment_gateway_router.Go.Time.{Time}
use payment_gateway_router.Go.Dict.{get-put}
use payment_gateway_router.Domain.Errors.{Result, ok, err, conflict}
use payment_gateway_router.Domain.Transaction.{Transaction, TransactionStatus, is_final, status_eq}
use payment_gateway_router.Memory.Transactions.{Store, complete, completed}
use payment_gateway_router.Memory.Transactions.Steps.{
  Call, next_attempts, saves, completes, step, run, find, find-complete, found-Evolves,
  step-Evolves, run-final, decided,
}

-- Whether a call is a `complete` of the transaction that reports a change.
abbrev pub reports_change : Result (Transaction × Bool) → Bool
reports_change (ok (t, changed)) = changed
reports_change (err e) = false

abbrev pub changes_now : Call → String → Store → Bool
changes_now (completes j status reason at) i s =
    str_eq j i && reports_change (complete j status reason at s).0
changes_now _ i s = false

-- How many calls report that they changed the transaction.
abbrev pub changes : List Call → String → Store → ℕ
changes [] i s = 0
changes (c ∷ cs) i s = (if changes_now c i s then 1 else 0) + changes cs i (step c s)

complete_final :
    (j : String) (status : TransactionStatus) (reason : String) (at : Time) (s : Store)
    {t : Transaction}
    → find s j ≡ some t
    → is_final t.status ≡ true
    → reports_change (complete j status reason at s).0 ≡ false
unfolding complete
complete_final j status reason at s h final = rw (h, final) (ground arith)

changes_now_final :
    (c : Call) (i : String) (s : Store) {t : Transaction}
    → find s i ≡ some t
    → is_final t.status ≡ true
    → changes_now c i s ≡ false
changes_now_final (next_attempts o) i s h final = refl
changes_now_final (saves u) i s h final = refl
changes_now_final (completes j status reason at) i s {t} h final =
    ground (arith, eq_iff j i, complete_final j status reason at s {t = t})

changes-final :
    (cs : List Call) (i : String) (s : Store) {t : Transaction}
    → find s i ≡ some t
    → is_final t.status ≡ true
    → changes cs i s ≡ 0
changes-final [] i s h final = refl
changes-final (c ∷ cs) i s {t} h final =
    let (u, e, k) = found-Evolves t (find (step c s) i) (step-Evolves c s i h) in
    rw (changes_now_final c i s h final)
      (omega (arith, changes-final cs i (step c s) e (rw (← k.1 final) final)))

changes_now-final_after :
    (c : Call) (i : String) (s : Store)
    → changes_now c i s ≡ true
    → (t : Transaction) × (find (step c s) i ≡ some t) × (is_final t.status ≡ true)
unfolding complete
changes_now-final_after (next_attempts o) i s h = cc
changes_now-final_after (saves u) i s h = cc
changes_now-final_after (completes j status reason at) i s h = elim (Option-cases (find s j)) [
  | inl e ↦ ground arith
  | inr (t, e) ↦ (
    completed t status reason at,
    ground (arith, eq_iff j i, get-put s.transactions j i (completed t status reason at)),
    ground (arith, eq_iff j i),
  )
]

-- However many callbacks arrive for a transaction, and whatever other calls come between them, at
-- most one `complete` reports that it changed the transaction.
pub changes-le-one : (cs : List Call) (i : String) (s : Store) → changes cs i s ≤ 1
changes-le-one [] i s = omega arith
changes-le-one (c ∷ cs) i s = elim (Bool-cases (changes_now c i s)) [
  | inl e ↦
      let (t, found, final) = changes_now-final_after c i s e in
      rw e (omega (arith, changes-final cs i (step c s) found final))
  | inr e ↦ rw e (omega (arith, changes-le-one cs i (step c s)))
]

complete-pending :
    (j : String) (status : TransactionStatus) (reason : String) (at : Time) (s : Store)
    {t : Transaction}
    → find s j ≡ some t
    → is_final t.status ≡ false
    → is_final status ≡ true
    → ((complete j status reason at s).0 ≡ ok (decided t status reason at, true))
      × (find (complete j status reason at s).1 j ≡ some (decided t status reason at))
complete-pending j status reason at s {t} h undecided final = (
  unfold complete in rw (h, final, undecided),
  rw (find-complete j j status reason at s, eq_refl j, h, final, undecided),
)

-- The answer to a callback of a transaction that is already final.
abbrev pub again :
    (status asked : TransactionStatus) (t : Transaction) → Result (Transaction × Bool)
again status asked t = if status_eq status asked then ok (t, false) else err conflict

complete-decided :
    (j : String) (asked : TransactionStatus) (reason : String) (at : Time) (s : Store)
    {t : Transaction}
    → find s j ≡ some t
    → is_final t.status ≡ true
    → is_final asked ≡ true
    → complete j asked reason at s ≡ (again t.status asked t, s)
unfolding complete
complete-decided j asked reason at s h final asks = rw (h, final, asks) (ground arith)

-- The first final callback of a pending transaction is accepted as a change. After it, whatever
-- other calls were made, a callback with the same status is answered with the stored transaction
-- and no change, one with the other status by a conflict, and neither alters the store.
pub complete_decides :
    (j : String) (status asked : TransactionStatus) (reason reason' : String) (at at' : Time)
    (s : Store) (cs : List Call) {t : Transaction}
    → find s j ≡ some t
    → is_final t.status ≡ false
    → is_final status ≡ true
    → is_final asked ≡ true
    → ((complete j status reason at s).0 ≡ ok (decided t status reason at, true))
      × (complete j asked reason' at' (run cs (complete j status reason at s).1) ≡ (
        again status asked (decided t status reason at),
        run cs (complete j status reason at s).1,
      ))
complete_decides j status asked reason reason' at at' s cs {t} h undecided final asks =
    let (changed, stored) = complete-pending j status reason at s h undecided final in
    let s' : Store = (complete j status reason at s).1 in
    (
      changed,
      complete-decided j asked reason' at' (run cs s') (run-final cs s' j stored final) final asks,
    )
