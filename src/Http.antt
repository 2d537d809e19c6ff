-- ===== src/Http.antt =====
-- internal/middleware: the identity that the gateway forwards, the guards of the routes and the keys
-- of the rate limits; and internal/handler/response.go. Handlers has the endpoints.
pub mod Handlers
pub mod Access
pub mod Common
pub mod Health
use store_order.Base.{
  ℕ, String, Option, none, some, List, [], ◌∷◌, ◌++◌, Bool, true, false, not, ◌&&◌, ◌||◌, is_empty,
  if◌then◌else◌, Result, ok, err, ℤ, trim_space, ◌<>◌, pos,
}
use store_order.Runtime.{Runtime}
use store_order.RateLimit.{LimitResult}
use store_order.Service.Response.{OrderResponse, OrderListResponse}

pub record GatewayUser : Type 0 where
  pub id : String
  pub email : String
  pub role : String

-- What the code reads of a request: its method and path, `r.Header.Get`, `r.RemoteAddr`, the user and
-- the request's id in its context, the path parameter "id", the query's parameters and the body with
-- the number of bytes after which reading it fails.
pub record Request : Type 0 where
  pub method : String
  pub path : String
  pub header : String → String
  pub remote_addr : String
  pub user : Option GatewayUser
  pub trace_id : Option String
  pub path_id : String
  pub query : String → String
  pub body : String
  pub body_limit : Option ℤ

pub record HealthResponse : Type 0 where
  pub status : String
  pub service : String
  pub timestamp : String
  pub checks : List (String × String)

-- what is written: JSON, or a text
pub data Body : Type 0 where
  order_body : Option OrderResponse → Body
  orders_body : OrderListResponse → Body
  error_body : String → String → List (String × String) → Body
  texts_body : List (String × String) → Body
  simulated_body : String → Option OrderResponse → Body
  health_body : HealthResponse → Body
  plain_body : String → Body

pub record Response : Type 0 where
  pub status : ℕ
  pub headers : List (String × String)
  pub body : Body

-- http.Handler with the state of the service
abbrev pub Handler : Type 0 → Type 0
Handler S = Request → S → Response × S

-- strings.EqualFold, the host part of net.SplitHostPort, and the part of a text before its first
-- comma, `strings.Split(s, ",")[0]`
pub record Strings : Type 0 where
  pub equal_fold : String → String → Bool
  pub split_host : String → Result String
  pub before_comma : String → String

abbrev pub respond_json : ℕ → Body → Response
respond_json status body = record {
  status = status;
  headers = ("Content-Type", "application/json") ∷ [];
  body = body;
}

abbrev pub respond_error : ℕ → String → String → Response
respond_error status kind message = respond_json status (error_body kind message [])

abbrev pub respond_validation_error : List (String × String) → Response
respond_validation_error details =
    respond_json 400
      (error_body "validation_failed" "One or more request parameters failed validation." details)

unfoldable pub extract_gateway_user : {S : Type 0} → Handler S → Handler S
extract_gateway_user next r =
    let user_id = trim_space (r.header "X-User-Id") in
    if not (is_empty user_id)
    then next (record r {
      user = some (record {
        id = user_id;
        email = trim_space (r.header "X-User-Email");
        role = trim_space (r.header "X-User-Role");
      });
    })
    else next r

-- a user is in the context and has an id
abbrev pub is_known : Option GatewayUser → Bool
is_known none = false
is_known (some user) = not (is_empty (trim_space user.id))

abbrev pub is_admin : Strings → Option GatewayUser → Bool
is_admin str none = false
is_admin str (some user) = str.equal_fold (trim_space user.role) "admin"

unfoldable pub require_auth : {S : Type 0} → Handler S → Handler S
require_auth next r s =
    if not (is_known r.user)
    then (
      respond_json 401 (
          texts_body (
            ("error", "unauthorized")
            ∷ ("message", "Authentication required. Missing verified user identity.")
            ∷ [])),
      s,
    )
    else next r s

unfoldable pub require_admin : {S : Type 0} → Strings → Handler S → Handler S
require_admin str next r s =
    if not (is_admin str r.user)
    then (
      respond_json 403 (
          texts_body (
            ("error", "forbidden")
            ∷ ("message", "Admin privileges are required to perform this action.")
            ∷ [])),
      s,
    )
    else next r s

-- without a proxy's header the host of the connection; SplitHostPort fails where there is no port
abbrev host_of : Strings → String → String
host_of str addr =
    let host : String = elim (str.split_host addr) [ ok h ↦ h | err _ ↦ trim_space addr ] in
    if is_empty host then "unknown" else host

unfoldable pub key_by_ip : Strings → Request → String
key_by_ip str r =
    let forwarded = r.header "X-Forwarded-For" in
    let first = trim_space (str.before_comma forwarded) in
    let real = trim_space (r.header "X-Real-IP") in
    if not (is_empty forwarded) && not (is_empty first)
    then "ip:" <> first
    else if not (is_empty real)
    then "ip:" <> real
    else "ip:" <> host_of str r.remote_addr

abbrev user_key : Option GatewayUser → String → String
user_key none other = other
user_key (some user) other =
    if not (is_empty (trim_space user.id)) then "user:" <> user.id else other

unfoldable pub key_by_user : Strings → Request → String
key_by_user str r = user_key r.user (key_by_ip str r)

abbrev pub key_with_prefix : String → (Request → String) → Request → String
key_with_prefix prefix keyer r = "ratelimit:" <> prefix <> ":" <> keyer r

pub record RateLimitRule : Type 0 where
  pub limit : ℤ
  pub window : ℕ
  pub keyer : Request → String

-- a limiter's `Allow`; the error that its type permits is never returned by RedisLimiter
abbrev pub Limiter : Type 0 → Type 0
Limiter S = String → ℤ → ℕ → S → Result LimitResult × S

-- what was set on the writer beforehand stands behind what the handler sets; the first entry of a
-- name counts
abbrev pub behind : List (String × String) → Response → Response
behind hs response = record response { headers = response.headers ++ hs }

abbrev pub quota_headers : Runtime → LimitResult → List (String × String)
quota_headers rt res =
    ("X-RateLimit-Limit", rt.decimal res.limit)
    ∷ ("X-RateLimit-Remaining", rt.decimal res.remaining)
    ∷ (if res.degraded then ("X-RateLimit-Degraded", "true") ∷ [] else [])

abbrev pub too_many : Runtime → LimitResult → Response
too_many rt res = record {
  status = 429;
  headers =
      ("Retry-After", rt.decimal res.retry_after_sec)
      ∷ ("Content-Type", "application/json")
      ∷ quota_headers rt res;
  body = texts_body (
      ("error", "rate_limit_exceeded")
      ∷ (
        "message",
        "Too many requests. Please retry after " <> rt.decimal res.retry_after_sec <> " seconds.",
      )
      ∷ []);
}

abbrev pub limited : {S : Type 0} → Runtime → Result LimitResult → Handler S → Handler S
limited rt (err e) next r s = next r s
limited rt (ok res) next r s =
    if not res.allowed
    then (too_many rt res, s)
    else (let (response, s') = next r s in (behind (quota_headers rt res) response, s'))

-- without a limiter the rule is void
unfoldable pub require_rate_limit :
    {S : Type 0} → Runtime → Option (Limiter S) → RateLimitRule → Handler S → Handler S
require_rate_limit rt none rule next r s = next r s
require_rate_limit rt (some limiter) rule next r s =
    let (res, s') = limiter (rule.keyer r) rule.limit rule.window s in limited rt res next r s'
