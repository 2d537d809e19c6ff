-- ===== src/Config.antt =====
-- internal/config/config.go. The environment, after the .env file has been read into it, and
-- strconv.ParseBool are parameters.
pub mod Defaults
use Prim.Native.Char.{Char}
use store_order.Base.{
  String, Option, none, some, List, [], ◌∷◌, Bool, ◌||◌, ◌==◌, not, ◌&&◌, is_empty, if◌then◌else◌,
  Result, ok, err, false, trim_space, ◌<>◌, split, trim_right_of, select, map,
}
use store_order.Runtime.{Runtime, lower_text}

pub record Config : Type 0 where
  pub port : String
  pub grpc_port : String
  pub dev : Bool
  pub enable_docs : Bool
  pub database_url : String
  pub kafka_brokers : List String
  pub kafka_topic_user_events : String
  pub kafka_user_events_group_id : String
  pub product_service_url : String
  pub midtrans_server_key : String
  pub midtrans_client_key : String
  pub midtrans_is_production : Bool
  pub redis_url : String
  pub redis_password : String
  pub redis_rate_limit_enabled : Bool

-- os.LookupEnv and strconv.ParseBool
pub record Environment : Type 0 where
  pub lookup_env : String → Option String
  pub parse_bool : String → Result Bool

-- a variable that is blank counts as unset
abbrev value_or : Option String → String → String
value_or none default_val = default_val
value_or (some val) default_val = if not (is_empty (trim_space val)) then val else default_val

unfoldable pub get_env : Environment → String → String → String
get_env env key default_val = value_or (env.lookup_env key) default_val

-- the loop over the parts
abbrev pub trimmed_parts : List String → List String
trimmed_parts [] = []
trimmed_parts (p ∷ parts) =
    let rest = trimmed_parts parts in
    let trimmed = trim_space p in if not (is_empty trimmed) then trimmed ∷ rest else rest

abbrev or_local : List String → List String
or_local [] = "localhost:9092" ∷ []
or_local (broker ∷ brokers) = broker ∷ brokers

-- splitAndTrim at a separator of one character
unfoldable pub split_and_trim : String → Char → List String
split_and_trim s sep = or_local (trimmed_parts (split sep s))

abbrev is_on : Runtime → String → Bool
is_on rt value = let s = lower_text rt (trim_space value) in s == "true" || s == "1"

-- the value that ParseBool returns beside its error is false
abbrev or_false : Result Bool → Bool
or_false (ok b) = b
or_false (err e) = false

abbrev redis_address : String → String → String → String
redis_address host port url = if not (is_empty host) then host <> ":" <> port else url

unfoldable pub load : Runtime → Environment → Config
unfolding get_env split_and_trim
load rt env = record {
  port = get_env env "PORT" "8060";
  grpc_port = get_env env "GRPC_PORT" "50051";
  dev = is_on rt (get_env env "DEV" "false");
  enable_docs = is_on rt (get_env env "ENABLE_DOCS" "true");
  database_url = get_env env "DATABASE_URL" "";
  kafka_brokers = split_and_trim (get_env env "KAFKA_BROKERS" "localhost:9092") ",";
  kafka_topic_user_events = get_env env "KAFKA_TOPIC_USER_EVENTS" "user.events";
  kafka_user_events_group_id = get_env env "KAFKA_USER_EVENTS_GROUP_ID" "store_order_user_events";
  product_service_url =
      trim_right_of "/" (get_env env "PRODUCT_SERVICE_URL" "http://localhost:8040");
  midtrans_server_key = get_env env "MIDTRANS_SERVER_KEY" "";
  midtrans_client_key = get_env env "MIDTRANS_CLIENT_KEY" "";
  midtrans_is_production = or_false (env.parse_bool (get_env env "MIDTRANS_IS_PRODUCTION" "false"));
  redis_url =
      redis_address (get_env env "REDIS_HOST" "") (get_env env "REDIS_PORT" "6379")
        (get_env env "REDIS_URL" "localhost:6379");
  redis_password = get_env env "REDIS_PASSWORD" "";
  redis_rate_limit_enabled = is_on rt (get_env env "REDIS_RATE_LIMIT_ENABLED" "true");
}
