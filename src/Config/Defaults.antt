-- ===== src/Config/Defaults.antt =====
-- What every configuration that Load returns has, whatever the environment holds.
use Prim.Native.Char.{Char}
use store_order.Base.{
  ◌≡◌, refl, String, List, [], ◌∷◌, false, is_empty, trim_space, Option, none, some, inl, inr,
  Bool-cases, trim_space-trim_space, EndsOtherwise, trim_right_of-EndsOtherwise, split,
}
use store_order.Runtime.{Runtime}
use store_order.Config.{Config, Environment, get_env, trimmed_parts, split_and_trim, load}

-- A text with something in it besides white space.
pub record IsNamed (s : String) : Type 0 where
  pub named : is_empty (trim_space s) ≡ false

-- Every text of the list is trimmed and not empty.
abbrev pub AreTrimmed : List String → Type 0
AreTrimmed [] = Unit
AreTrimmed (s ∷ rest) = (is_empty s ≡ false) × (trim_space s ≡ s) × AreTrimmed rest

abbrev pub HasSome : List String → Type 0
HasSome [] = ⊥
HasSome (s ∷ rest) = Unit

get_env-IsNamed :
    (env : Environment) (key default_val : String)
    → is_empty (trim_space default_val) ≡ false
    → IsNamed (get_env env key default_val)
unfolding get_env
get_env-IsNamed env key default_val h = go (env.lookup_env key) refl
  where
    go : (v : Option String) → env.lookup_env key ≡ v → IsNamed (get_env env key default_val)
    go none e = record { named = rw e h }
    go (some val) e = elim (Bool-cases (is_empty (trim_space val))) [
      | inl blank ↦ record { named = rw (e, blank) h }
      | inr named ↦ record { named = rw (e, named) named }
    ]

trimmed_parts-AreTrimmed : (parts : List String) → AreTrimmed (trimmed_parts parts)
trimmed_parts-AreTrimmed [] = tt
trimmed_parts-AreTrimmed (p ∷ parts) = elim (Bool-cases (is_empty (trim_space p))) [
  | inl blank ↦ rw blank (trimmed_parts-AreTrimmed parts)
  | inr named ↦ rw named (named, trim_space-trim_space p, trimmed_parts-AreTrimmed parts)
]

split_and_trim-AreTrimmed :
    (s : String) (sep : Char) → HasSome (split_and_trim s sep) × AreTrimmed (split_and_trim s sep)
unfolding split_and_trim trim_space
split_and_trim-AreTrimmed s sep = go (trimmed_parts (split sep s)) refl
  where
    go :
        (parts : List String)
        → trimmed_parts (split sep s) ≡ parts
        → HasSome (split_and_trim s sep) × AreTrimmed (split_and_trim s sep)
    go [] e = rw e (tt, (refl, refl, tt))
    go (p ∷ parts) e = rw e (tt, rw e at (trimmed_parts-AreTrimmed (split sep s)))

-- A configuration that the program can start with.
pub record IsUsable (c : Config) : Type 0 where
  pub port : IsNamed c.port
  pub grpc_port : IsNamed c.grpc_port
  pub some_broker : HasSome c.kafka_brokers
  pub brokers : AreTrimmed c.kafka_brokers
  pub topic : IsNamed c.kafka_topic_user_events
  pub group : IsNamed c.kafka_user_events_group_id
  pub product_url : EndsOtherwise "/" c.product_service_url

-- Whatever the environment holds, Load returns a configuration with ports, a topic and a consumer
-- group that are not blank, with at least one broker, each of them trimmed and not empty, and with an
-- address of the product service that does not end with a slash.
pub load-IsUsable : (rt : Runtime) (env : Environment) → IsUsable (load rt env)
unfolding load trim_space
load-IsUsable rt env = record {
  port = get_env-IsNamed env "PORT" "8060" refl;
  grpc_port = get_env-IsNamed env "GRPC_PORT" "50051" refl;
  some_broker = (split_and_trim-AreTrimmed (get_env env "KAFKA_BROKERS" "localhost:9092") ",").0;
  brokers = (split_and_trim-AreTrimmed (get_env env "KAFKA_BROKERS" "localhost:9092") ",").1;
  topic = get_env-IsNamed env "KAFKA_TOPIC_USER_EVENTS" "user.events" refl;
  group = get_env-IsNamed env "KAFKA_USER_EVENTS_GROUP_ID" "store_order_user_events" refl;
  product_url =
      trim_right_of-EndsOtherwise "/" (get_env env "PRODUCT_SERVICE_URL" "http://localhost:8040");
}
