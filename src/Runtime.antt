-- ===== src/Runtime.antt =====
-- The event envelope of internal/service/order_service.go, and what the program takes from Go's
-- runtime and standard packages: IEEE arithmetic, the clock, random identifiers, JSON, SHA-512 and
-- the Unicode case tables. A function that reads the clock or draws an identifier takes what it read
-- as arguments.
use Prim.Native.Char.{Char}
use store_order.Base.{String, List, ℤ, Bool, Result, to_lower, to_upper}
use store_order.Schema.{Float64, Time}

-- The values that the program's `map[string]interface{}` hold.
pub data Scalar : Type 0 where
  text : String → Scalar
  float : Float64 → Scalar
  int : ℤ → Scalar

abbrev pub ItemMap : Type 0
ItemMap = List (String × Scalar)

pub data Value : Type 0 where
  scalar : Scalar → Value
  items : List ItemMap → Value

abbrev pub EventData : Type 0
EventData = List (String × Value)

-- DomainEventEnvelope
pub record DomainEventEnvelope : Type 0 where
  pub event_id : String
  pub event_type : String
  pub timestamp : String
  pub producer : String
  pub payload : EventData

-- What a call draws from its surroundings for one envelope: `uuid.NewString()` and `time.Now()`.
pub record Draw : Type 0 where
  pub uuid : String
  pub now : Time

pub record Runtime : Type 0 where
  -- float64: `a + b`, `a * b`, `a > 0`, `float64(i)`
  pub add : Float64 → Float64 → Float64
  pub mul : Float64 → Float64 → Float64
  pub is_above_zero : Float64 → Bool
  pub of_int : ℤ → Float64
  -- t.Format(time.RFC3339), t.UTC().Format(time.RFC3339), t.Format("20060102")
  pub rfc3339 : Time → String
  pub rfc3339_utc : Time → String
  pub date : Time → String
  -- fmt's %d and %q
  pub decimal : ℤ → String
  pub quoted : String → String
  -- json.Marshal of an envelope; it fails on what JSON cannot hold, such as an infinite float
  pub marshal : DomainEventEnvelope → Result String
  -- hex.EncodeToString of sha512.Sum512
  pub sha512_hex : String → String
  -- the case tables of package unicode beyond ASCII
  pub lower : Char → Char
  pub upper : Char → Char

abbrev pub lower_text : Runtime → String → String
lower_text rt = to_lower rt.lower

abbrev pub upper_text : Runtime → String → String
upper_text rt = to_upper rt.upper
