-- ===== src/Scenarios/Servers.antt =====
-- The program as it is built from an environment that sets two variables, and a cancellation over
-- HTTP.
use store_order.Base.{
  String, ◌≡◌, refl, Option, none, some, [], ◌∷◌, ok, err, ◌==◌, if◌then◌else◌, split, pos,
  trim_space, to_lower, trim_right_of,
}
use store_order.Prisma.Memory.{memory, steps}
use store_order.Prisma.Memory.Rows.{tables}
use store_order.Prisma.Memory.Laws.{memory_laws}
use store_order.Config.{Config, Environment, load, get_env, split_and_trim}
use store_order.Config.Defaults.{IsUsable, load-IsUsable}
use store_order.Midtrans.{SnapTransport}
use store_order.Http.{Request}
use store_order.Server.{Platform, Readings, service_handler}
use store_order.Server.Guards.{Effect}
use store_order.Repository.Orders.{update_order_status_with_outbox, insert_outbox, get_order_by_id}
use store_order.RateLimit.{allow}
use store_order.Service.Customer.{cancel_customer_order, cancel_found, check_cancellable}
use store_order.Http.{
  require_rate_limit, extract_gateway_user, require_auth, key_by_ip, key_by_user,
}
use store_order.Http.Common.{request_id, recoverer}
use store_order.Http.Handlers.{handle_cancel_order}
use store_order.Router.{setup_router}
use store_order.Scenarios.Matching.{plain, chi, chi_laws}
use store_order.Server.Access.{service_handler-Effect}
use store_order.Scenarios.Fixtures.{surroundings, draw, shop}

abbrev variable : String → Option String
variable name =
    if name == "KAFKA_BROKERS"
    then some " , one:9092 ,two:9092"
    else if name == "PRODUCT_SERVICE_URL"
    then some "http://products//"
    else none

abbrev environment : Environment
environment = record { lookup_env = variable; parse_bool = λ s. err "invalid syntax" }

abbrev config : Config
config = load surroundings environment

load-IsUsable_example : IsUsable config
load-IsUsable_example = load-IsUsable surroundings environment

two_brokers : config.kafka_brokers ≡ "one:9092" ∷ "two:9092" ∷ []
unfolding load get_env split_and_trim split trim_space
two_brokers = refl

product_address : config.product_service_url ≡ "http://products"
unfolding load get_env trim_right_of trim_space
product_address = refl

abbrev snap : SnapTransport
snap = record {
  marshal = λ request. err "unreachable";
  base64 = λ s. s;
  new_request = λ post. err "unreachable";
  send = λ post. err "unreachable";
  decode = λ s. err "unreachable";
  error_body = λ s. s;
}

-- Redis is not reached.
abbrev platform : Platform (Unit {0})
platform = record {
  rt = surroundings;
  str = record { equal_fold = λ s t. s == t; split_host = ok; before_comma = λ s. s };
  decoders = record {
    read_checkout = λ limit body. none;
    read_update_status = λ limit body. none;
    read_webhook = λ limit body. none;
    atoi = λ digits. pos 0;
  };
  files = record {
    read_file = λ path. err "no such file";
    redirect = λ r target status. plain target;
    http_error = λ text status. plain text;
  };
  chi = chi;
  product_request = err;
  product_send = err;
  product_decode = err;
  snap = snap;
  parse_url = err;
  run_script = λ options timeout key now window limit member b. (err "connection refused", b);
}

abbrev readings : Readings
readings = record {
  uuid = "u-u-i-d";
  short_id = "u-u-i-d";
  now = 5;
  envelope = draw;
  order = record { today = 1; suffix = "ab12cd"; expiry_base = 1; event_time = 2; envelope = draw };
  limiter = λ key. (5, "u-u-i-d");
}

-- Ann cancels her order.
abbrev cancellation : Request
cancellation = record {
  method = "POST";
  path = "/api/v1/orders/o1/cancel";
  header = λ name. if name == "X-User-Id" then "ann" else "";
  remote_addr = "10.0.0.1:80";
  user = none;
  trace_id = none;
  path_id = "";
  query = λ name. "";
  body = "";
  body_limit = none;
}

service_handler-Effect_example :
    Effect platform config cancellation
      (tables shop)
      (tables (service_handler platform config memory readings cancellation (shop, tt)).1.0)
service_handler-Effect_example =
    service_handler-Effect platform config memory memory_laws readings chi_laws cancellation shop tt
      refl

-- The request is routed to the endpoint, which cancels the order and answers with it.
cancelled_over_http :
    (service_handler platform config memory readings cancellation (shop, tt)).0.status ≡ 200
unfolding service_handler setup_router request_id recoverer require_rate_limit load get_env
    split_and_trim split to_lower trim_space trim_right_of allow extract_gateway_user require_auth
    key_by_ip key_by_user handle_cancel_order cancel_customer_order cancel_found check_cancellable
    get_order_by_id update_order_status_with_outbox insert_outbox steps
cancelled_over_http = refl
