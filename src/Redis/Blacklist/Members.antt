-- ===== src/Redis/Blacklist/Members.antt =====
-- `BlacklistedGateways` of internal/adapters/repository/redis/order_gateway_blacklist_repository.go
-- against its in-memory counterpart.
use payment_gateway_router.Common.{String, ◌≡◌, refl, sym, ◌∙◌, Option, none, some, if◌then◌else◌}
use payment_gateway_router.Go.Dict
use payment_gateway_router.Go.Dict.{Dict, get-keys_where, passes}
use payment_gateway_router.Domain.Errors.{ok}
use payment_gateway_router.Domain.Gateway.{OrderGatewayAttemptSummary}
use payment_gateway_router.Memory.Blacklist as Memory
use payment_gateway_router.Memory.Blacklist.{by_gateway, or_zero}
use payment_gateway_router.Redis.Key.Splitting.{Plain}
use payment_gateway_router.Redis.Client.{Store, HashSetting}
use payment_gateway_router.Redis.Blacklist.{blacklist_key, blacklisted_gateways}
use payment_gateway_router.Redis.Blacklist.Refinement.{Related}

passes-flag :
    (found : Option OrderGatewayAttemptSummary)
    → passes (λ summary. summary.blacklisted) found
      ≡ (if (or_zero found).blacklisted then some tt else none)
passes-flag none = refl
passes-flag (some summary) = refl

module _ {S V : Type 0} (store : Store S V) (setting : HashSetting store) (m : Memory.Store)
    (s : S) where
  -- `BlacklistedGateways` answers over Redis as in memory, and neither changes its store: of the
  -- gateways whose names are not empty and have no colon, both find the same ones for an order of such
  -- an ID, where the stores hold the same summaries, the key prefix is not empty and has no colon, and
  -- the server answers.
  pub blacklisted_gateways-same :
      (o : String)
      → Plain o
      → Related store setting m s
      → (found found' : Dict (Unit {0})) × (Memory.blacklisted_gateways o m ≡ (ok found, m))
        × (blacklisted_gateways store o s ≡ (ok found', s))
        × ((g : String) → Plain g → Dict.get found' g ≡ Dict.get found g)
  unfolding Memory.blacklisted_gateways blacklisted_gateways
  blacklisted_gateways-same o h related = (
    _,
    setting.hashes.members s (blacklist_key store o),
    refl,
    setting.hashes.smembers-members (blacklist_key store o) s,
    λ g i.
        setting.hashes.get-members s (blacklist_key store o) g
        ∙ rw ((related o g h i).blacklisted) (
            sym (
              get-keys_where (λ summary. summary.blacklisted) (by_gateway m o) g
              ∙ passes-flag (Dict.get (by_gateway m o) g))),
  )
