-- ===== src/Tests/Repositories.antt =====
-- The in-memory repositories at concrete inputs.
use payment_gateway_router.Common.{
  ◌+◌, ◌≤◌, ◌≡◌, refl, true, none, some, List, [], ◌∷◌, arith, count, leb, ◌==◌, ◌&&◌,
  if◌then◌else◌,
}
use payment_gateway_router.Go.Int.{pos}
use payment_gateway_router.Go.Float64
use payment_gateway_router.Go.Dict
use payment_gateway_router.Domain.Errors.{ok, err, conflict}
use payment_gateway_router.Domain.Transaction.{Transaction, pending, success, failure}
use payment_gateway_router.Memory.Transactions
use payment_gateway_router.Memory.Transactions.{Store, new, next_attempt, complete, completed}
use payment_gateway_router.Memory.Transactions.Steps.{
  Call, next_attempts, completes, run, find, Evolves, run-Evolves, decided,
}
use payment_gateway_router.Memory.Transactions.Once.{changes, changes-le-one, complete_decides}
use payment_gateway_router.Memory.Transactions.Attempts.{is_attempt_of, next_attempt_number}
use payment_gateway_router.Memory.Blacklist
use payment_gateway_router.Memory.Blacklist.History.{
  Outcome, record_all, is_outcome, blacklisted_iff,
}

abbrev payment : Transaction
payment = record {
  id = "txn_1";
  order_id = "ORD123";
  attempt_no = pos 1;
  amount = Float64.of_ℕ 499;
  payment_instrument = none;
  gateway = "razorpay";
  gateway_reference_id = "rzp_txn_1";
  status = pending;
  failure_reason = "";
  created_at = 1000;
  updated_at = 1000;
  completed_at = none;
}

abbrev pub stored : Store
stored = (Transactions.save payment new).1

abbrev callbacks : List Call
callbacks =
    completes "txn_1" success "" 2000
    ∷ next_attempts "ORD123"
    ∷ completes "txn_1" failure "late" 3000
    ∷ completes "txn_1" success "" 4000
    ∷ []

payment_found : find stored "txn_1" ≡ some payment
unfolding Transactions.save Dict.get Dict.put Dict.empty
payment_found = refl

run-Evolves_example : Evolves payment (find (run callbacks stored) "txn_1")
run-Evolves_example = run-Evolves callbacks stored "txn_1" payment_found

changes_once : changes callbacks "txn_1" stored ≡ 1
unfolding Transactions.save complete next_attempt Dict.get Dict.put Dict.empty
changes_once = refl

changes-le-one_example : changes callbacks "txn_1" stored ≤ 1
changes-le-one_example = changes-le-one callbacks "txn_1" stored

complete_decides_example :
    ((complete "txn_1" success "" 2000 stored).0 ≡ ok (decided payment success "" 2000, true))
    × (complete "txn_1" failure "late" 3000
          (run callbacks (complete "txn_1" success "" 2000 stored).1)
        ≡ (err conflict, run callbacks (complete "txn_1" success "" 2000 stored).1))
complete_decides_example =
    complete_decides "txn_1" success failure "" "late" 2000 3000 stored callbacks payment_found refl
      refl refl

next_attempt_number_example :
    (next_attempt "ORD123" (run callbacks new)).0
    ≡ ok (pos (count (is_attempt_of "ORD123") callbacks + 1))
next_attempt_number_example = next_attempt_number callbacks "ORD123" (omega arith)

abbrev pub outcomes : List Outcome
outcomes =
    record { order_id = "ORD1"; gateway = "razorpay"; status = failure; at = 1 }
    ∷ record { order_id = "ORD1"; gateway = "payu"; status = success; at = 2 }
    ∷ record { order_id = "ORD1"; gateway = "razorpay"; status = failure; at = 3 }
    ∷ []

blacklisted_iff_example :
    let failures = count (is_outcome failure "ORD1" "razorpay") outcomes in
    let successes = count (is_outcome success "ORD1" "razorpay") outcomes in
    (found : Dict.Dict (Unit {0})) × ((Blacklist.blacklisted_gateways "ORD1"
        (record_all (pos 2) outcomes Blacklist.new)).0
      ≡ ok found)
    × (Dict.get found "razorpay" ≡ (if successes == 0 && leb 2 failures then some tt else none))
blacklisted_iff_example = blacklisted_iff 2 outcomes "ORD1" "razorpay" (omega arith) (omega arith)
