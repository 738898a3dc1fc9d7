-- ===== src/Redis/Transactions/Equivalence.antt =====
-- The operations of internal/adapters/repository/redis/transaction_repository.go answer as their
-- in-memory counterparts.
use payment_gateway_router.Common.{String}
use payment_gateway_router.Go.Time.{Time}
use payment_gateway_router.Go.Dict
use payment_gateway_router.Domain.Transaction.{Transaction, TransactionStatus}
use payment_gateway_router.Memory.Transactions as Memory
use payment_gateway_router.Redis.Client.{Store, Setting}
use payment_gateway_router.Redis.Transactions.{complete}
use payment_gateway_router.Redis.Transactions.Refinement.{Refines}

module _ {S V : Type 0} (store : Store S V) (setting : Setting store) (id : String)
    (status : TransactionStatus) (reason : String) (at : Time) (m : Memory.Store) (s : S) where
  abbrev CompletesAlike : Type 0
  CompletesAlike =
      Refines store setting (Memory.complete id status reason at m)
        (complete store id status reason at s)
