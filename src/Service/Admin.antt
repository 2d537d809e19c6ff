-- ===== src/Service/Admin.antt =====
-- AdminListOrders and AdminUpdateStatus of order_service.go.
pub mod Fulfilment
use store_order.Base.{
  String, Option, none, some, not, ◌||◌, is_empty, if◌then◌else◌, Action, pure, raise, ◌>>=◌, ◌<>◌,
  ◌==◌, put, trim_space,
}
use store_order.Schema.{
  OrderStatus, processing, shipped, completed, cancelled, OrderModel, same_status,
}
use store_order.Runtime.{Runtime, Draw, EventData, upper_text}
use store_order.Prisma.{Prisma}
use store_order.Repository.{OutboxCreateInput, ShippingMetadata, OrderFilter}
use store_order.Repository.Orders.{list_all_orders, update_order_status_with_outbox}
use store_order.Service.Events.{
  new_domain_event_envelope, order_outbox, build_order_event_data, event_type_order_shipped,
  event_type_order_cancelled, str,
}
use store_order.Service.Response.{OrderResponse, OrderListResponse, response_of, order_responses}
use store_order.Service.Customer.{with_order}

-- the `switch` on the requested status; `none` is its default case
unfoldable pub target_of : Runtime → String → Option OrderStatus
target_of rt requested =
    let s = upper_text rt (trim_space requested) in
    if s == "PROCESSING"
    then some processing
    else if s == "SHIPPED"
    then some shipped
    else if s == "COMPLETED"
    then some completed
    else if s == "CANCELLED"
    then some cancelled
    else none

abbrev pub admin_event_of : OrderStatus → Option String
admin_event_of shipped = some event_type_order_shipped
admin_event_of cancelled = some event_type_order_cancelled
admin_event_of _ = none

abbrev pub shipping_of : String → String → Option ShippingMetadata
shipping_of courier receipt =
    if not (is_empty courier) || not (is_empty receipt)
    then some (record { courier_name = courier; receipt_number = receipt })
    else none

abbrev put_if : String → String → EventData → EventData
put_if key value d = if is_empty value then d else put key (str value) d

abbrev admin_data : Runtime → OrderModel → OrderStatus → String → String → EventData
admin_data rt order target courier receipt =
    let d = build_order_event_data rt (record order { status = target }) "" in
    let d = put_if "courierName" courier d in
    let d = put_if "receiptNumber" receipt d in
    if same_status target cancelled then put "reason" (str "Admin cancelled") d else d

abbrev pub admin_outbox :
    Runtime
    → Draw
    → OrderModel
    → OrderStatus
    → String
    → String
    → Option String
    → Option OutboxCreateInput
admin_outbox rt draw order target courier receipt none = none
admin_outbox rt draw order target courier receipt (some event_type) = some (
    order_outbox rt order.id
      (new_domain_event_envelope rt draw event_type (admin_data rt order target courier receipt)))

abbrev or_invalid : {S : Type 0} → String → Option OrderStatus → Action S OrderStatus
or_invalid requested none = raise ("invalid target order status: " <> requested)
or_invalid requested (some target) = pure target

module _ (p : Prisma) (rt : Runtime) where
  open p use {State}

  unfoldable pub admin_list_orders : OrderFilter → Action State OrderListResponse
  admin_list_orders filter = do
    (orders, total) ← list_all_orders p filter
    pure (record {
      orders = order_responses rt orders;
      total = total;
      limit = filter.limit;
      offset = filter.offset;
    })

  -- the part of AdminUpdateStatus below the lookup
  unfoldable pub update_found :
      Draw → String → String → String → String → OrderModel → Action State (Option OrderResponse)
  update_found draw order_id requested courier receipt order = do
    target ← or_invalid requested (target_of rt requested)
    updated ←
        update_order_status_with_outbox p order_id target none (shipping_of courier receipt)
          (admin_outbox rt draw order target courier receipt (admin_event_of target))
    pure (response_of rt updated)

  unfoldable pub admin_update_status :
      Draw → String → String → String → String → Action State (Option OrderResponse)
  admin_update_status draw order_id requested courier receipt =
      with_order p order_id (update_found draw order_id requested courier receipt)
