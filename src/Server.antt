-- ===== src/Server.antt =====
-- cmd/server/main.go: the parts that it builds from the configuration, and the handler of the HTTP
-- server. The state of a request is that of the database beside the rate limiter's. Startup has the
-- connection to the database.
pub mod Startup
pub mod Workers
pub mod Shutdown
pub mod Ownership
pub mod Guards
pub mod Endpoints
pub mod Access
use text.Mathlib.Text.{starts_with}
use store_order.Base.{
  ℕ, String, Option, none, some, List, Bool, true, if◌then◌else◌, ◌||◌, Result, ok, err, ℤ, pos,
  Action,
}
use store_order.Schema.{Time, Float64}
use store_order.Runtime.{Runtime, Draw}
use store_order.Config.{Config}
use mathlib.Core.Option
use store_order.Prisma.{Prisma}
use store_order.Product.{ProductDto, HttpResponse, ItemOrderRequest, ValidatedItem, validate_items}
use store_order.Product
use store_order.Midtrans.{
  SnapTransport, SnapTransactionRequest, SnapResponse, new_snap_client, create_snap_transaction,
}
use store_order.RateLimit.{RedisLimiter, Decoded, new_redis_limiter, allow}
use store_order.Service.Checkout.{CheckoutDraws, checkout}
use store_order.Http.{Handler, Strings, Limiter}
use store_order.Http.Handlers.{
  Decoders, handle_checkout, handle_get_order, handle_list_orders, handle_cancel_order,
  handle_update_order_status, handle_midtrans, handle_admin_list_orders, handle_simulate_success,
  handle_simulate_cancel, handle_simulate_expire,
}
use store_order.Http.Health.{check}
use store_order.Router.{RouterDeps, setup_router}
use store_order.Router.Docs.{Files}
use store_order.Router.Mux.{Chi}

-- redis.Options
pub record RedisOptions : Type 0 where
  pub addr : String
  pub password : String

-- What the program finds around it, B being the state of Redis: Go's packages, the transports of its
-- clients, redis.ParseURL, and the script of the limiter, run on a client with these options.
pub record Platform (B : Type 0) : Type 1 where
  pub rt : Runtime
  pub str : Strings
  pub decoders : Decoders
  pub files : Files
  pub chi : Chi
  pub product_request : String → Result String
  pub product_send : String → Result HttpResponse
  pub product_decode : String → Result ProductDto
  pub snap : SnapTransport
  pub parse_url : String → Result RedisOptions
  pub run_script : RedisOptions → ℤ → String → ℕ → ℕ → ℤ → String → Action B Decoded

-- what the handling of one request reads from the clock and draws at random; `limiter` is for a key
pub record Readings : Type 0 where
  pub uuid : String
  pub short_id : String
  pub now : Time
  pub envelope : Draw
  pub order : CheckoutDraws
  pub limiter : String → ℕ × String

module _ {A B : Type 0} where
  abbrev pub on_database : Handler A → Handler (A × B)
  on_database h r (a, b) = let (response, a') = h r a in (response, (a', b))

  abbrev pub on_redis : Limiter B → Limiter (A × B)
  on_redis limiter key limit window (a, b) =
      let (res, b') = limiter key limit window b in (res, (a, b'))

module _ {B : Type 0} (o : Platform B) (cfg : Config) where
  abbrev plain_options : RedisOptions
  plain_options = record { addr = cfg.redis_url; password = cfg.redis_password }

  -- a URL that does not parse is taken for an address
  abbrev pub redis_options : RedisOptions
  redis_options =
      if starts_with cfg.redis_url "redis://" || starts_with cfg.redis_url "rediss://"
      then elim (o.parse_url cfg.redis_url) [ ok opt ↦ opt | err e ↦ plain_options ]
      else plain_options

  -- without Redis the limiter is there all the same, and lets every request pass
  abbrev pub rate_limiter : Option (RedisLimiter B)
  rate_limiter =
      if cfg.redis_rate_limit_enabled
      then some (new_redis_limiter (o.run_script redis_options) true (pos 25_000_000))
      else none

  -- the limiter's Allow, as the middleware calls it
  abbrev pub allow_of : Readings → RedisLimiter B → Limiter B
  allow_of d limiter key limit window b =
      let (now_ms, uuid) = d.limiter key in
      let (res, b') = allow o.rt limiter now_ms uuid key limit window b in (ok res, b')

  abbrev pub validate : List ItemOrderRequest → Result (List ValidatedItem × Float64)
  validate =
      validate_items o.rt (
        Product.new_client o.product_request o.product_send o.product_decode
          cfg.product_service_url)

  abbrev pub pay : SnapTransactionRequest → Result SnapResponse
  pay =
      create_snap_transaction o.rt
        (new_snap_client o.snap cfg.midtrans_server_key cfg.midtrans_is_production cfg.dev)

  module _ (p : Prisma) (d : Readings) where
    abbrev pub router_deps : RouterDeps (p.State × B)
    router_deps = record {
      config = cfg;
      checkout_handler =
          on_database (handle_checkout o.decoders (checkout p o.rt validate pay d.order));
      list_orders_handler = on_database (handle_list_orders p o.rt o.decoders);
      get_order_handler = on_database (handle_get_order p o.rt o.decoders);
      cancel_order_handler = on_database (handle_cancel_order p o.rt o.decoders d.envelope);
      midtrans_handler =
          on_database
            (handle_midtrans p o.rt o.decoders cfg.midtrans_server_key cfg.dev d.envelope d.now);
      admin_list_orders_handler = on_database (handle_admin_list_orders p o.rt o.decoders);
      update_order_status_handler =
          on_database (handle_update_order_status p o.rt o.decoders d.envelope);
      simulate_success_handler =
          on_database (handle_simulate_success p o.rt o.decoders d.envelope d.short_id d.now);
      simulate_cancel_handler = on_database (handle_simulate_cancel p o.rt o.decoders d.envelope);
      simulate_expire_handler = on_database (handle_simulate_expire p o.rt o.decoders d.envelope);
      health_handler = check o.rt true d.now;
      limiter = Option.map on_redis (Option.map (allow_of d) rate_limiter);
    }

    -- the handler of the HTTP server
    unfoldable pub service_handler : Handler (p.State × B)
    service_handler = setup_router o.rt o.str o.files o.chi router_deps d.uuid
