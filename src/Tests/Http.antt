-- ===== src/Tests/Http.antt =====
-- The handlers, what a callback comes to, and a selection that succeeds, at a concrete world.
use payment_gateway_router.Common.{◌≡◌, refl, none, [], arith, ◌⊎◌, inl}
use payment_gateway_router.Go.Dict
use payment_gateway_router.Action.Post.{Post}
use payment_gateway_router.Domain.Errors.{ok, err, message}
use payment_gateway_router.Go.Float64
use payment_gateway_router.Go.Float64.{nan}
use payment_gateway_router.Domain.Config.{AppConfig, with_defaults, default_routing_config}
use payment_gateway_router.Memory.Transactions
use payment_gateway_router.Memory.Health
use payment_gateway_router.Memory.Blacklist
use payment_gateway_router.Service.World.{World}
use payment_gateway_router.Service.Health.Totality.{Never}
use payment_gateway_router.Service.Transactions.{callback}
use payment_gateway_router.Service.Transactions.Answering.{verdict, Answer, Refusal}
use payment_gateway_router.Service.Transactions.Verdicts.{callback-verdict}
use payment_gateway_router.Service.Routing.{GatewaySelectionRequest, select_gateway}
use payment_gateway_router.Service.Routing.Progress.{Weighty, select_gateway-Selects}
use payment_gateway_router.Service.Routing.Remaining.{remaining}
use payment_gateway_router.Http.{
  CallbackRequest, Json, handle_callback, write_json, gateways_body, encode, error_text,
}
use payment_gateway_router.Http.Answers.{Expected, handle_callback-Expected}
use payment_gateway_router.Http.Asked.{usable}
use payment_gateway_router.Tests.Selection.{candidates, start}
use payment_gateway_router.Tests.Services.{world, registry, deps, paid}

callback-verdict_example :
    let v =
      verdict
        (world.clock world.clock_reads)
        paid
        (Dict.get world.transactions.transactions paid.transaction_id) in
    Post (Answer paid.transaction_id v) (Refusal world v) (callback deps paid world)
callback-verdict_example = callback-verdict registry paid world refl

-- Bodies that are decoded already.
abbrev json : Json CallbackRequest
json = record {
  initiate_request = λ body. err (message "not a request");
  callback_request = λ body. ok body;
}

abbrev body : CallbackRequest
body = record {
  transaction_id = " txn_1";
  order_id = "";
  status = "success";
  gateway = "razorpay";
  reason = "";
}

handle_callback-Expected_example :
    Expected (usable json none (ok body)) world (handle_callback deps json none (ok body) world)
handle_callback-Expected_example = handle_callback-Expected registry json none (ok body) world

-- A threshold that is NaN is kept, and cannot be written.
abbrev unlimited : AppConfig
unlimited = record {
  routing = record default_routing_config { success_rate_threshold = nan };
  gateways = [];
}

not_a_number :
    write_json 200 (gateways_body (with_defaults unlimited).routing [])
    ≡ record { status = 200; written = error_text (message "json: unsupported value") }
unfolding encode with_defaults default_routing_config Float64.le Float64.lt Float64.of_ℕ
not_a_number = refl

-- A snapshot that is fresh, in which every gateway is healthy.
abbrev cached : World Transactions.Store Health.Store Blacklist.Store
cached = record start {
  routing_cache = record { expires_at = 64000000000000000000; healthy = candidates; probes = [] };
}

abbrev request : GatewaySelectionRequest
request = record { transaction_id = "txn_2"; order_id = "ORD2"; excluded_gateways = Dict.empty }

select_gateway-Selects_example :
    Post
      (λ selection w'.
        Weighty (remaining Dict.empty []) selection.gateway
        ⊎ Weighty (remaining Dict.empty candidates) selection.gateway)
      Never
      (select_gateway deps request cached)
unfolding Dict.get Dict.empty
select_gateway-Selects_example =
    select_gateway-Selects deps request cached refl (omega arith, omega arith) (inl refl)
