-- ===== src/Domain/Json.antt =====
-- The values of encoding/json, as `any` holds them.
use payment_gateway_router.Common.{String, Bool}
use payment_gateway_router.Go.Float64.{Float64}

mutual
  pub data Json : Type 0 where
    null : Json
    bool : Bool → Json
    number : Float64 → Json
    text : String → Json
    array : Items → Json
    object : Fields → Json

  pub data Items : Type 0 where
    nil : Items
    cons : Json → Items → Items

  pub data Fields : Type 0 where
    end : Fields
    field : String → Json → Fields → Fields
