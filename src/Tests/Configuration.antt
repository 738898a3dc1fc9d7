-- ===== src/Tests/Configuration.antt =====
-- A configuration file that is read, broken and touched again.
use payment_gateway_router.Common.{◌≡◌, List, [], ◌∷◌}
use payment_gateway_router.Domain.Errors.{ok, err, message}
use payment_gateway_router.Domain.Outcomes.{WhenOk}
use payment_gateway_router.Domain.Config.{AppConfig, with_defaults}
use payment_gateway_router.Domain.Config.Bounds.{
  AllPositive, with_rate_of, with_defaults-AllPositive,
}
use payment_gateway_router.Configuration.{Disk, Parser, watch, new_file_provider}
use payment_gateway_router.Configuration.Reloading.{IsValid, new_file_provider-IsValid}
use payment_gateway_router.Tests.Selection.{config}

abbrev parser : Parser AppConfig
parser = record { extension = ".yaml"; json = λ c. ok c; yaml = λ c. ok c }

abbrev at_first : Disk AppConfig
at_first = record { stat_before = ok 1; read = ok config; stat_after = ok 1 }

abbrev ticks : List (Disk AppConfig)
ticks =
    record { stat_before = ok 2; read = ok (record config { gateways = [] }); stat_after = ok 2 }
    ∷ record { stat_before = err (message "gone"); read = err (message "gone"); stat_after = ok 3 }
    ∷ []

new_file_provider-IsValid_example :
    WhenOk (λ p. IsValid (watch parser ticks p)) (new_file_provider parser at_first)
new_file_provider-IsValid_example = new_file_provider-IsValid parser at_first ticks

with_defaults-AllPositive_example :
    AllPositive (with_defaults config).routing
    × ((with_defaults (with_defaults config)).routing
        ≡ with_rate_of
            (with_defaults config).routing
            (with_defaults (with_defaults config)).routing)
with_defaults-AllPositive_example = with_defaults-AllPositive config
