-- ===== src/Lib.antt =====
-- A payment gateway router: it chooses a gateway for each payment, by weight among the healthy ones,
-- follows the gateways' callbacks, takes a gateway out of rotation when its success rate falls
-- (circuit breaker), and keeps an order away from gateways that have failed it.
--
-- How the parts interact. POST /transactions/initiate calls TransactionService.Initiate: it asks the
-- order blacklist which gateways to exclude, lets RoutingService.SelectGateway choose one, which
-- prepares every gateway's state through HealthService.PrepareForRouting and acquires a probe on a
-- half-open one, then calls the gateway's client and saves the transaction; an error releases the
-- probe. POST /transactions/callback decodes a gateway's payload and calls
-- TransactionService.Callback: it completes the transaction, and the first time records the outcome
-- with HealthService.RecordOutcome and with the order blacklist.
--
-- Which file models which part:
--   Domain             internal/domain: Errors (errors.go), Transaction (transaction.go), Gateway
--                      (gateway.go), Config (config.go), Json (the `any` of a payment instrument),
--                      Encoding (what encoding/json refuses to write of these types);
--                      Outcomes has the rules for results
--   Ports              internal/ports/ports.go: the repositories and clients as records of calls
--   Memory             internal/adapters/repository/memory: Transactions, Health, Blacklist, with
--                      what sequences of their calls do in the children of each
--   Gateways           internal/adapters/gateway: clients, callback decoders, registry
--   Configuration      internal/adapters/config: runtime_config.go, file_provider.go
--   Service            internal/service: World (what the services keep and are given), Health
--                      (health_service.go), Blacklist (order_gateway_blacklist_service.go), Routing
--                      (routing_service.go), Transactions (transaction_service.go), each with its
--                      proofs in its children
--   Http               internal/adapters/http/router.go: the handlers, from a decoded request to a
--                      response; Asked, Answers and Statuses say what they answer
--   Redis              internal/adapters/repository/redis: Client and Key (client.go), Server (what
--                      is used of the server and of its libraries), Json (the JSON of a transaction, by
--                      the tags of internal/domain/transaction.go), Lua (the numbers of the scripts),
--                      Transactions, Blacklist, States
--                      (the JSON of a gateway's state, and the loops of the Lua scripts), Health
--   Go                 what the code uses of Go: Int, Float64, Time, Dict (a map), Text
--   Action             calls on a shared state, and the rules for what they keep (Action/Post)
--   Common             names and lemmas that all files share
--   Tests              the theorems at concrete inputs, and runs of the definitions
--
-- Names are the source's, in snake case: `select_gateway` is RoutingService.SelectGateway. A call is a
-- function from the state to a result or an error and the state it leaves, so what was written before
-- an error stays written. A repository's state is a parameter (T, H, B) of the services; the theorems
-- on gateway states use the in-memory repository for H and any repositories for T and B, those on the
-- blacklist the in-memory one for B.
--
-- Choices of the model. An `int` is an integer that wraps at 64 bits (Go/Int); the counts of a
-- GatewayStats are natural numbers, since the length of a slice bounds them. A `float64` is an exact
-- IEEE 754 binary64 number (Go/Float64). A time is the number of nanoseconds since year 1, a duration
-- wraps at 64 bits. The routing counter wraps at 2^64. The clock, the configuration provider and the
-- ID generator answer their n-th call by the n-th value of a sequence about which nothing is assumed.
-- Loops are recursion over the list that the source ranges over, so that there is no fuel. A call on
-- an in-memory repository is one step, as its mutex makes it; a call of a service is a sequence of
-- such steps without another's in between. An error keeps its sentinel or its constant text.
--
-- The Redis repositories stand on a record of commands and on records for JSON text and for the texts
-- of numbers and times, with their documented behaviour as laws (Redis/Server): a server that answers
-- and uses a key for one type of value, 14 digits of a number in cjson, RFC 3339 up to the year 9999.
-- A Lua script is the calls that it makes, and is executed as a whole. The counts of the blacklist's
-- script are doubles (Redis/Lua), whose texts are laws up to 2^53 only; the milliseconds and numbers
-- of probes in the scripts on states are integers.
--
-- Not modelled: RecordEvent and StatsSince of the Redis repository, the traffic simulator, the wiring in cmd,
-- logging, contexts and cancellation, interleavings of service calls, the routes of net/http.
-- crypto/rand, the system clock, the file system, viper, yaml, what encoding/json reads, the text that
-- it writes and the Redis server are parameters.
pub mod Common
pub mod Go
pub mod Domain
pub mod Action
pub mod Ports
pub mod Memory
pub mod Gateways
pub mod Configuration
pub mod Service
pub mod Http
pub mod Redis
pub mod Tests
