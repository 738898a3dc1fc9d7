-- ===== src/Memory/Transactions/Attempts.antt =====
-- The numbering of an order's attempts: `NextAttempt` of
-- internal/adapters/repository/memory/transaction_repository.go.
use native.Mathlib.Nat.{zero-add}
use payment_gateway_router.Common.{
  ℕ, ◌+◌, ◌^◌, ◌<◌, ◌≡◌, String, Bool, false, List, [], ◌∷◌, arith, str_eq, eq_iff, count,
  if◌then◌else◌, Bool-cases, Option-cases, length, ap, inl, count-le-length, inr, ◌∙◌,
}
use payment_gateway_router.Go.Int.{ℤ, pos, pos-+ℤ}
use payment_gateway_router.Go.Dict
use payment_gateway_router.Go.Dict.{get-put, get-empty}
use payment_gateway_router.Domain.Errors.{ok}
use payment_gateway_router.Memory.Transactions.{Store, new, count_of, next_attempt, save, complete}
use payment_gateway_router.Memory.Transactions.Steps.{
  Call, next_attempts, saves, completes, step, run,
}

abbrev pub attempt_of : Store → String → ℤ
attempt_of s order_id = count_of (Dict.get s.attempts order_id)

abbrev pub is_attempt_of : String → Call → Bool
is_attempt_of order_id (next_attempts o) = str_eq o order_id
is_attempt_of order_id _ = false

save_attempts : (t : _) (s : Store) → (save t s).1.attempts ≡ s.attempts
unfolding save
save_attempts t s = ground arith

complete_attempts :
    (j : String) (status : _) (reason : String) (at : _) (s : Store)
    → (complete j status reason at s).1.attempts ≡ s.attempts
unfolding complete
complete_attempts j status reason at s = elim (Option-cases (Dict.get s.transactions j)) [
  | inl e ↦ ground arith
  | inr (t, e) ↦ ground arith
]

-- One call adds one to the count of its own order, and nothing to any other.
step_attempt :
    (c : Call) (s : Store) (o : String) (n : ℕ)
    → n + 1 < 2 ^ 63
    → attempt_of s o ≡ pos n
    → attempt_of (step c s) o ≡ pos (if is_attempt_of o c then n + 1 else n)
unfolding next_attempt
step_attempt (saves t) s o n fits h = rw (save_attempts t s) h
step_attempt (completes j status reason at) s o n fits h =
    rw (complete_attempts j status reason at s) h
step_attempt (next_attempts p) s o n fits h = elim (Bool-cases (str_eq p o)) [
  | inl same ↦ rw (get-put, same, (eq_iff p o).0 same, h) (pos-+ℤ n 1 fits)
  | inr different ↦ rw (get-put, different) h
]

run_attempts :
    (cs : List Call) (s : Store) (o : String) (n : ℕ)
    → n + length cs < 2 ^ 63
    → attempt_of s o ≡ pos n
    → attempt_of (run cs s) o ≡ pos (n + count (is_attempt_of o) cs)
run_attempts [] s o n fits h = rw h (ap pos (omega arith))
run_attempts (c ∷ cs) s o n fits h = elim (Bool-cases (is_attempt_of o c)) [
  | inl mine ↦
      rw
        (
          run_attempts cs (step c s) o (n + 1) (omega arith)
              (step_attempt c s o n (omega arith) h ∙ rw mine),
          mine,
        )
        (ap pos (omega arith))
  | inr other ↦ rw (
    run_attempts cs (step c s) o n (omega arith) (step_attempt c s o n (omega arith) h ∙ rw other),
    other,
  )
]

-- Attempts are numbered from 1 without a gap: after any calls on a new repository, fewer than
-- 2^63 - 1 of them, the next attempt of an order is one more than the attempts taken for it so far,
-- whatever was done for other orders in between.
pub next_attempt_number :
    (cs : List Call) (o : String)
    → length cs + 1 < 2 ^ 63
    → (next_attempt o (run cs new)).0 ≡ ok (pos (count (is_attempt_of o) cs + 1))
unfolding next_attempt
next_attempt_number cs o fits =
    rw (run_attempts cs new o 0 (omega arith) (rw (get-empty {V = ℤ} o)), zero-add)
      (ap ok (
        pos-+ℤ (count (is_attempt_of o) cs) 1
          (omega (arith, count-le-length (is_attempt_of o) cs))))
