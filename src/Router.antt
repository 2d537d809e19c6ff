-- ===== src/Router.antt =====
-- internal/router/router.go. The multiplexer chi, which finds the route of a path, and the packages
-- RealIP and cors are parameters; Docs has the documentation endpoints.
pub mod Mux
pub mod Docs
use store_order.Base.{
  String, Option, none, some, List, [], ◌∷◌, ◌++◌, Bool, true, false, if◌then◌else◌, ℤ, pos, ℕ,
  Result,
}
use store_order.Runtime.{Runtime}
use store_order.Config.{Config}
use store_order.Http.{
  Request, Response, Handler, Strings, Limiter, RateLimitRule, extract_gateway_user, require_auth,
  require_admin, key_by_ip, key_by_user, key_with_prefix, require_rate_limit, behind, plain_body,
}
use store_order.Http.Common.{request_id, recoverer, returned}
use store_order.Router.Docs.{Files, documentation_routes}
use store_order.Router.Mux.{
  Chi, CorsOptions, Route, exactly, mounted, Target, endpoint, serve, use_real_ip, use_cors,
}

-- the handlers of the endpoints, the configuration and the limiter, if there is one
pub record RouterDeps (S : Type 0) : Type 0 where
  pub config : Config
  pub checkout_handler : Handler S
  pub list_orders_handler : Handler S
  pub get_order_handler : Handler S
  pub cancel_order_handler : Handler S
  pub midtrans_handler : Handler S
  pub admin_list_orders_handler : Handler S
  pub update_order_status_handler : Handler S
  pub simulate_success_handler : Handler S
  pub simulate_cancel_handler : Handler S
  pub simulate_expire_handler : Handler S
  pub health_handler : Handler S
  pub limiter : Option (Limiter S)

abbrev minute : ℕ
minute = 60_000_000_000

abbrev ten_seconds : ℕ
ten_seconds = 10_000_000_000

abbrev pub global_rule : Strings → RateLimitRule
global_rule str = record { limit = pos 120; window = minute; keyer = key_by_ip str }

abbrev pub webhook_rule : Strings → RateLimitRule
webhook_rule str = record {
  limit = pos 300;
  window = minute;
  keyer = key_with_prefix "webhook" (key_by_ip str);
}

abbrev pub checkout_rule : Strings → RateLimitRule
checkout_rule str = record {
  limit = pos 3;
  window = ten_seconds;
  keyer = key_with_prefix "checkout" (key_by_user str);
}

abbrev pub cancel_rule : Strings → RateLimitRule
cancel_rule str = record {
  limit = pos 5;
  window = minute;
  keyer = key_with_prefix "cancel" (key_by_user str);
}

abbrev pub cors_options : CorsOptions
cors_options = record {
  allowed_origins = "*" ∷ [];
  allowed_methods = "GET" ∷ "POST" ∷ "PUT" ∷ "PATCH" ∷ "DELETE" ∷ "OPTIONS" ∷ [];
  allowed_headers =
      "Accept" ∷ "Authorization" ∷ "Content-Type" ∷ "X-CSRF-Token" ∷ "X-Request-ID" ∷ "X-User-Id"
      ∷ "X-User-Role" ∷ "X-User-Email" ∷ [];
  exposed_headers =
      "Link" ∷ "X-Request-ID" ∷ "X-RateLimit-Limit" ∷ "X-RateLimit-Remaining" ∷ "Retry-After" ∷ [];
  allow_credentials = true;
  max_age = 300;
}

module _ {S : Type 0} (rt : Runtime) (str : Strings) (files : Files) (chi : Chi)
    (deps : RouterDeps S) where
  open deps use {config, limiter}

  -- the routes below /api/v1/orders: the webhook is public, the rest wants a user
  abbrev pub order_routes : List (Route (Target S))
  order_routes =
      record {
        pattern = exactly "POST" "/webhook/midtrans";
        target = endpoint (require_rate_limit rt limiter (webhook_rule str) deps.midtrans_handler);
      }
      ∷ record {
        pattern = exactly "POST" "/";
        target = endpoint (
            require_auth (require_rate_limit rt limiter (checkout_rule str) deps.checkout_handler));
      }
      ∷ record {
        pattern = exactly "GET" "/";
        target = endpoint (require_auth deps.list_orders_handler);
      }
      ∷ record {
        pattern = exactly "GET" "/{id}";
        target = endpoint (require_auth deps.get_order_handler);
      }
      ∷ record {
        pattern = exactly "POST" "/{id}/cancel";
        target = endpoint (
            require_auth
              (require_rate_limit rt limiter (cancel_rule str) deps.cancel_order_handler));
      }
      ∷ []

  -- the routes below /api/v1/admin/orders
  abbrev pub admin_routes : List (Route (Target S))
  admin_routes =
      record { pattern = exactly "GET" "/"; target = endpoint deps.admin_list_orders_handler }
      ∷ record {
        pattern = exactly "PATCH" "/{id}/status";
        target = endpoint deps.update_order_status_handler;
      }
      ∷ []

  -- the routes below /api/v1/dev/orders
  abbrev pub dev_routes : List (Route (Target S))
  dev_routes =
      record {
        pattern = exactly "POST" "/{id}/simulate-success";
        target = endpoint deps.simulate_success_handler;
      }
      ∷ record {
        pattern = exactly "POST" "/{id}/simulate-cancel";
        target = endpoint deps.simulate_cancel_handler;
      }
      ∷ record {
        pattern = exactly "POST" "/{id}/simulate-expire";
        target = endpoint deps.simulate_expire_handler;
      }
      ∷ []

  abbrev pub docs_part : List (Route (Target S))
  docs_part = if config.enable_docs then documentation_routes files else []

  abbrev pub dev_part : List (Route (Target S))
  dev_part =
      if config.dev
      then record { pattern = mounted "/api/v1/dev/orders"; target = serve chi dev_routes } ∷ []
      else []

  -- the middleware of a mounted router runs before its routes are looked at
  abbrev pub routes : List (Route (Target S))
  routes =
      record { pattern = exactly "GET" "/health"; target = endpoint deps.health_handler }
      ∷ (docs_part
          ++ (record { pattern = mounted "/api/v1/orders"; target = serve chi order_routes }
              ∷ record {
                pattern = mounted "/api/v1/admin/orders";
                target = λ path. require_admin str (serve chi admin_routes path);
              }
              ∷ dev_part))

  -- the chain behind the recoverer
  abbrev pub guarded : Handler S
  guarded =
      require_rate_limit rt limiter (global_rule str)
        (use_cors chi cors_options (extract_gateway_user λ r. serve chi routes r.path r))

  -- the whole chain, in the order in which the middleware is registered; the logger leaves no trace,
  -- and none of the handlers panics. `uuid` is for a request without an id.
  unfoldable pub setup_router : String → Handler S
  setup_router uuid = request_id uuid (
      use_real_ip chi
        (recoverer λ r s. let (response, s') = guarded r s in (returned response, s')))
