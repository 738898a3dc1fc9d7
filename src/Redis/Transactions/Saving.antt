-- ===== src/Redis/Transactions/Saving.antt =====
-- `Save` and `GetByID` of internal/adapters/repository/redis/transaction_repository.go against their
-- in-memory counterparts.
use payment_gateway_router.Go.Dict
use payment_gateway_router.Domain.Transaction.{Transaction}
use payment_gateway_router.Memory.Transactions as Memory
