-- ===== src/Tests/Redis.antt =====
-- The Redis repositories against the in-memory ones, on a server in memory.
use payment_gateway_router.Common.{◌≡◌, refl, String, none, [], ◌∷◌, arith}
use payment_gateway_router.Go.Int.{pos}
use payment_gateway_router.Go.Float64
use payment_gateway_router.Go.Dict
use payment_gateway_router.Go.Dict.{get-put, Dict}
use payment_gateway_router.Domain.Transaction.{Transaction, pending, failure}
use payment_gateway_router.Memory.Transactions as Memory
use payment_gateway_router.Memory.Blacklist
use payment_gateway_router.Domain.Errors.{ok}
use payment_gateway_router.Redis.Key.{key}
use payment_gateway_router.Redis.Key.Splitting.{Plain, split_colons, split_colons-key}
use payment_gateway_router.Redis.Transactions.{save}
use payment_gateway_router.Redis.Transactions.Refinement.{Related, Refines}
use payment_gateway_router.Redis.Blacklist as RedisBlacklist
use payment_gateway_router.Redis.Blacklist.Refinement as Hashes
use payment_gateway_router.Redis.Blacklist.Equivalence.{record_outcome-Refines}
use payment_gateway_router.Redis.Blacklist.Members.{blacklisted_gateways-same}
use payment_gateway_router.Tests.Server
use payment_gateway_router.Tests.Server.{store, hash_setting, no_data}

split_colons-key_example :
    split_colons (key "pgr" ("order" ∷ "ORD1" ∷ "attempt" ∷ []))
    ≡ "pgr" ∷ "order" ∷ "ORD1" ∷ "attempt" ∷ []
split_colons-key_example =
    split_colons-key "pgr" ("order" ∷ "ORD1" ∷ "attempt" ∷ [])
      ((refl, refl), ((refl, refl), ((refl, refl), ((refl, refl), tt))))

abbrev payment : Transaction
payment = record {
  id = "txn_1";
  order_id = "ORD1";
  attempt_no = pos 1;
  amount = Float64.fin (pos 3);
  payment_instrument = none;
  gateway = "razorpay";
  gateway_reference_id = "rzp_1";
  status = pending;
  failure_reason = "";
  created_at = 10;
  updated_at = 10;
  completed_at = none;
}

abbrev books : Memory.Store
books = (Memory.save payment Memory.new).1

abbrev keys : Server.Memory
keys = (save store payment no_data).1

no_summaries : Hashes.Related store hash_setting Blacklist.new no_data
unfolding Dict.get Dict.empty
no_summaries order_id gateway h i = record { failures = refl; successes = refl; blacklisted = refl }

record_outcome-Refines_example :
    Hashes.Refines store hash_setting
      (Blacklist.record_outcome "ORD1" "razorpay" failure (pos 1) 20 Blacklist.new)
      (RedisBlacklist.record_outcome store "ORD1" "razorpay" failure (pos 1) 20 no_data)
unfolding Dict.get Dict.empty
record_outcome-Refines_example =
    record_outcome-Refines store hash_setting Blacklist.new no_data "ORD1" "razorpay" failure
      (pos 1) 20 (omega arith) (omega arith) (0, refl, omega arith) (0, refl, omega arith)
      (refl, refl) (refl, refl) no_summaries

abbrev failed : Blacklist.Store
failed = (Blacklist.record_outcome "ORD1" "razorpay" failure (pos 1) 20 Blacklist.new).1

abbrev failed_keys : Server.Memory
failed_keys = (RedisBlacklist.record_outcome store "ORD1" "razorpay" failure (pos 1) 20 no_data).1

failed_summaries : Hashes.Related store hash_setting failed failed_keys
unfolding Dict.get Dict.empty
failed_summaries =
    (record_outcome-Refines store hash_setting Blacklist.new no_data "ORD1" "razorpay" failure
      (pos 1) 20 (omega arith) (omega arith) (0, refl, omega arith) (0, refl, omega arith)
      (refl, refl) (refl, refl) no_summaries).1

blacklisted_gateways-same_example :
    (found found' : Dict (Unit {0})) × (Blacklist.blacklisted_gateways "ORD1" failed
      ≡ (ok found, failed))
    × (RedisBlacklist.blacklisted_gateways store "ORD1" failed_keys ≡ (ok found', failed_keys))
    × ((g : String) → Plain g → Dict.get found' g ≡ Dict.get found g)
blacklisted_gateways-same_example =
    blacklisted_gateways-same store hash_setting failed failed_keys "ORD1" (refl, refl)
      failed_summaries
