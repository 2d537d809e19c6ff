-- ===== src/Scenarios/Fixtures.antt =====
-- The surroundings in which the scenarios run, and a database of three orders.
use store_order.Base.{◌+◌, ◌*◌, String, none, some, [], ◌∷◌, ltb, ok, pos_part, refl}
use store_order.Schema.{OrderStatus, OrderModel, pending_payment, shipped}
use store_order.Runtime.{Runtime, Draw}
use store_order.Prisma.Memory.{Memory, row_of}

-- Whole amounts, texts in place of what JSON, SHA-512 and the clock make of their inputs.
abbrev pub surroundings : Runtime
surroundings = record {
  add = λ a b. a + b;
  mul = λ a b. a * b;
  is_above_zero = λ a. ltb 0 a;
  of_int = pos_part;
  rfc3339 = λ t. "2026-08-19T00:00:00Z";
  rfc3339_utc = λ t. "2026-08-19T00:00:00Z";
  date = λ t. "20260819";
  decimal = λ i. "1";
  quoted = λ s. s;
  marshal = λ e. ok e.event_type;
  sha512_hex = λ s. s;
  lower = λ c. c;
  upper = λ c. c;
}

abbrev pub draw : Draw
draw = record { uuid = "u-u-i-d"; now = 5 }

abbrev pub order_of : String → String → String → OrderStatus → OrderModel
order_of id number user status = record {
  id = id;
  order_number = number;
  user_id = user;
  user_email = "mail";
  status = status;
  total_amount = 100;
  shipping_fee = 0;
  shipping_address = some "street";
  payment_type = none;
  midtrans_transaction_id = none;
  snap_token = some "token";
  snap_redirect_url = some "url";
  courier_name = none;
  receipt_number = none;
  paid_at = none;
  expires_at = none;
  created_at = 0;
  updated_at = 0;
  items = some [];
}

abbrev pub unpaid_order : OrderModel
unpaid_order = order_of "o1" "ORD-1" "ann" pending_payment

abbrev pub shipped_order : OrderModel
shipped_order = order_of "o2" "ORD-2" "ann" shipped

abbrev pub other_order : OrderModel
other_order = order_of "o3" "ORD-3" "bob" pending_payment

-- Two orders of one customer, and one of another.
abbrev pub shop : Memory
unfolding row_of
shop = record {
  rows = unpaid_order ∷ shipped_order ∷ other_order ∷ [];
  events = [];
  distinct = (refl, (refl, (refl, tt)));
}
