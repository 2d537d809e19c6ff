-- ===== src/Grpc.antt =====
-- internal/grpc/mapper.go and internal/grpc/order_service.go: the pre-flight check before an account
-- is deleted. The messages of store_proto are records of the fields that the code sets and reads.
pub mod Statuses
pub mod Preflight
pub mod Listening
use Prim.Native.Nat.{◌%◌, ◌^◌}
use store_order.Base.{
  ℕ, ◌-◌, ltb, String, Option, none, some, List, [], ◌∷◌, map, length, Bool, true, false, is_empty,
  if◌then◌else◌, ℤ, pos, negsuc, Result, ok, err, trim_space, ◌<>◌, Action,
}
use store_order.Schema.{
  OrderStatus, pending_payment, paid, processing, shipped, completed, cancelled, expired,
  OrderModel, Float64,
}
use store_order.Runtime.{Runtime}
use store_order.Prisma.{Prisma}
use store_order.Repository.Orders.{list_active_orders_by_user_id}

-- orderv1.OrderStatus: the constants that the mapper names, and every other number
pub data ProtoStatus : Type 0 where
  proto_unspecified proto_pending_payment proto_paid proto_processing proto_shipped : ProtoStatus
  proto_completed proto_cancelled proto_expired : ProtoStatus
  proto_other : ℤ → ProtoStatus

-- the default branch has no status of the schema
unfoldable pub map_db_status_to_proto : OrderStatus → ProtoStatus
map_db_status_to_proto pending_payment = proto_pending_payment
map_db_status_to_proto paid = proto_paid
map_db_status_to_proto processing = proto_processing
map_db_status_to_proto shipped = proto_shipped
map_db_status_to_proto completed = proto_completed
map_db_status_to_proto cancelled = proto_cancelled
map_db_status_to_proto expired = proto_expired

-- none is `"", false`
unfoldable pub map_proto_status_to_db : ProtoStatus → Option OrderStatus
map_proto_status_to_db proto_pending_payment = some pending_payment
map_proto_status_to_db proto_paid = some paid
map_proto_status_to_db proto_processing = some processing
map_proto_status_to_db proto_shipped = some shipped
map_proto_status_to_db proto_completed = some completed
map_proto_status_to_db proto_cancelled = some cancelled
map_proto_status_to_db proto_expired = some expired
map_proto_status_to_db _ = none

pub record ActiveOrderSummary : Type 0 where
  pub order_id : String
  pub order_number : String
  pub status : ProtoStatus
  pub total_amount : Float64
  pub created_at : String

abbrev pub map_order_model_to_active_summary : Runtime → OrderModel → ActiveOrderSummary
map_order_model_to_active_summary rt order = record {
  order_id = order.id;
  order_number = order.order_number;
  status = map_db_status_to_proto order.status;
  total_amount = order.total_amount;
  created_at = rt.rfc3339 order.created_at;
}

pub record CheckActiveOrdersResponse : Type 0 where
  pub has_active_orders : Bool
  pub active_order_count : ℤ
  pub active_orders : List ActiveOrderSummary
  pub message : String

pub data Code : Type 0 where
  invalid_argument internal : Code

pub data Reply : Type 0 where
  response : CheckActiveOrdersResponse → Reply
  status_error : Code → String → Reply

-- `int32(n)`
abbrev pub int32_of : ℕ → ℤ
int32_of n = let m = n % 2 ^ 32 in if ltb m (2 ^ 31) then pos m else negsuc (2 ^ 32 - m - 1)

-- `strings.TrimSpace(req.GetUserId())`; a missing request has no user id
abbrev pub requested_user : Option String → String
requested_user none = ""
requested_user (some user_id) = trim_space user_id

abbrev pub active_reply : Runtime → List OrderModel → Reply
active_reply rt [] = response (record {
  has_active_orders = false;
  active_order_count = pos 0;
  active_orders = [];
  message = "User has no active orders";
})
active_reply rt (order ∷ orders) = response (record {
  has_active_orders = true;
  active_order_count = int32_of (length (order ∷ orders));
  active_orders = map (map_order_model_to_active_summary rt) (order ∷ orders);
  message =
      "User has "
      <> rt.decimal (pos (length (order ∷ orders)))
      <> " active order(s) blocking account deletion";
})

abbrev pub reply_of : Runtime → Result (List OrderModel) → Reply
reply_of rt (ok orders) = active_reply rt orders
reply_of rt (err e) = status_error internal ("failed to query active orders for user: " <> e)

unfoldable pub check_active_orders :
    (p : Prisma) → Runtime → Option String → p.State → Reply × p.State
check_active_orders p rt req s =
    let user = requested_user req in
    let (r, s') = list_active_orders_by_user_id p user s in
    if is_empty user
    then (status_error invalid_argument "user_id is required", s)
    else (reply_of rt r, s')
