-- ===== src/RateLimit.antt =====
-- internal/ratelimit/limiter.go: the Lua script of the sliding window, and Allow around it. Redis's
-- sorted sets and the connection to the server are parameters; the clock and the random part of a
-- member are arguments.
pub mod Sets
pub mod Window
pub mod Bounds
pub mod Availability
use Prim.Native.Nat.{◌/◌}
use store_order.Base.{
  ℕ, ◌+◌, ◌-◌, String, Option, none, some, List, [], ◌∷◌, Bool, true, false, not, ◌||◌, ltb, leb,
  if◌then◌else◌, ℤ, pos, negsuc, Action, Result, ok, err, ◌<>◌, nat_eq, is_positive,
}
use store_order.Runtime.{Runtime}

-- `now - window`, which is negative before the first window has passed
infixl 65 ◌-ℤ◌
abbrev pub ◌-ℤ◌ : ℕ → ℕ → ℤ
a -ℤ b = if leb b a then pos (a - b) else negsuc (b - a - 1)

-- The commands that the script calls, on one key. `zremrangebyscore` is from '-inf' up to a score,
-- and `oldest_score` is the score that `ZRANGE key 0 0 WITHSCORES` returns.
pub record Redis : Type 1 where
  pub State : Type 0
  pub zremrangebyscore : String → ℤ → State → State
  pub zcard : String → State → ℕ
  pub zadd : String → ℕ → String → State → State
  pub pexpire : String → ℕ → State → State
  pub oldest_score : String → State → Option ℕ

-- the script's `{allowed, remaining, retry_after}`
pub record Reply : Type 0 where
  pub allowed : ℕ
  pub remaining : ℕ
  pub retry_after : ℕ

-- `count < limit`; limit is any integer
abbrev pub below : ℕ → ℤ → Bool
below count (pos limit) = ltb count limit
below count (negsuc _) = false

-- `limit - count - 1`, where count < limit
abbrev remaining_of : ℤ → ℕ → ℕ
remaining_of (pos limit) count = limit - count - 1
remaining_of (negsuc _) count = 0

-- a wait below 0 is 0
abbrev pub retry_after_ms : Option ℕ → ℕ → ℕ → ℕ
retry_after_ms none now window = 1000
retry_after_ms (some oldest) now window = (oldest + window) - now

-- `math.ceil(ms / 1000)`, at least 1
abbrev pub retry_after_sec : ℕ → ℕ
retry_after_sec ms = let sec = (ms + 999) / 1000 in if ltb sec 1 then 1 else sec

module _ (r : Redis) where
  open r use {State}

  abbrev pub evicted : String → ℕ → ℕ → State → State
  evicted key now window s = r.zremrangebyscore key (now -ℤ window) s

  -- slidingWindowLua, which Redis runs with no other command in between
  unfoldable pub sliding_window : String → ℕ → ℕ → ℤ → String → State → Reply × State
  sliding_window key now window limit member s =
      let s' = evicted key now window s in
      let current_count = r.zcard key s' in
      if below current_count limit
      then (
        record { allowed = 1; remaining = remaining_of limit current_count; retry_after = 0 },
        r.pexpire key window (r.zadd key now member s'),
      )
      else (
        record {
          allowed = 0;
          remaining = 0;
          retry_after = retry_after_sec (retry_after_ms (r.oldest_score key s') now window);
        },
        s',
      )

-- what the script's result decodes to: the elements of an array are numbers or something else
pub data Element : Type 0 where
  integer : ℤ → Element
  other : Element

pub data Decoded : Type 0 where
  array : List Element → Decoded
  scalar : Decoded

-- `values[i].(int64)`, 0 where the type is another
abbrev pub int64_of : Element → ℤ
int64_of (integer i) = i
int64_of other = pos 0

abbrev pub is_one : ℤ → Bool
is_one (pos n) = nat_eq n 1
is_one (negsuc _) = false

pub record LimitResult : Type 0 where
  pub allowed : Bool
  pub remaining : ℤ
  pub limit : ℤ
  pub retry_after_sec : ℤ
  pub degraded : Bool

-- the result without an answer from Redis
abbrev pub open_result : ℤ → Bool → LimitResult
open_result limit degraded = record {
  allowed = true;
  remaining = limit;
  limit = limit;
  retry_after_sec = pos 0;
  degraded = degraded;
}

abbrev pub result_of : ℤ → Result Decoded → LimitResult
result_of limit (ok (array (allowed ∷ remaining ∷ retry_after ∷ rest))) = record {
  allowed = is_one (int64_of allowed);
  remaining = int64_of remaining;
  limit = limit;
  retry_after_sec = int64_of retry_after;
  degraded = false;
}
result_of limit _ = open_result limit true

-- RedisLimiter; `run_script` is the client's `script.Run` with the timeout of the limiter
pub record RedisLimiter (S : Type 0) : Type 0 where
  pub enabled : Bool
  pub run_script : Option (String → ℕ → ℕ → ℤ → String → Action S Decoded)

-- NewRedisLimiter, on what runs the script with a timeout in nanoseconds
abbrev pub new_redis_limiter :
    {S : Type 0} → (ℤ → String → ℕ → ℕ → ℤ → String → Action S Decoded) → Bool → ℤ → RedisLimiter S
new_redis_limiter run enabled timeout = record {
  enabled = enabled;
  run_script = some (run (if is_positive timeout then timeout else pos 25_000_000));
}

-- `window` in nanoseconds: every rule of the program has a positive one
unfoldable pub allow :
    {S : Type 0} → Runtime → RedisLimiter S → ℕ → String → String → ℤ → ℕ → S → LimitResult × S
allow rt limiter now_ms uuid key limit window s = elim limiter.run_script [
  | none ↦ (open_result limit false, s)
  | some run ↦
      if not limiter.enabled
      then (open_result limit false, s)
      else let member = rt.decimal (pos now_ms) <> "-" <> uuid in
        let (res, s') = run key now_ms (window / 1_000_000) limit member s in
        (result_of limit res, s')
]
