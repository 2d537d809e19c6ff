-- ===== src/Service/Customer.antt =====
-- GetCustomerOrder, ListCustomerOrders and CancelCustomerOrder of order_service.go.
pub mod Lookup
pub mod Reads
pub mod Cancel
use store_order.Base.{
  String, Option, none, some, List, Bool, not, ◌&&◌, is_empty, if◌then◌else◌, ℤ, ℕ, Result, ok,
  Action, pure, raise, attempt, ◌>>=◌, ◌>>◌, ◌<>◌, ◌==◌,
}
use store_order.Schema.{
  OrderStatus, pending_payment, cancelled, OrderModel, same_status, status_text,
}
use store_order.Runtime.{Runtime, Draw}
use store_order.Prisma.{Prisma}
use store_order.Repository.{OutboxCreateInput}
use store_order.Repository.Orders.{
  get_order_by_id, list_orders_by_user_id, update_order_status_with_outbox,
}
use store_order.Service.Events.{
  new_domain_event_envelope, order_outbox, build_order_event_data, event_type_order_cancelled,
}
use store_order.Service.Response.{OrderResponse, OrderListResponse, response_of, order_responses}

-- `if err != nil || order == nil { return nil, errors.New("order not found") }`
abbrev pub or_not_found : {S : Type 0} → Result (Option OrderModel) → Action S OrderModel
or_not_found (ok (some order)) = pure order
or_not_found _ = raise "order not found"

-- what a cancellation by the customer stores in the outbox
abbrev pub cancel_outbox : Runtime → Draw → OrderModel → OutboxCreateInput
cancel_outbox rt draw order = order_outbox rt order.id (
    new_domain_event_envelope rt draw event_type_order_cancelled
      (build_order_event_data rt (record order { status = cancelled }) "Customer cancelled"))

-- the lookup with which the methods below, and the administrator's, begin
abbrev pub with_order :
    (p : Prisma) {B : Type 0} → String → (OrderModel → Action p.State B) → Action p.State B
with_order p id f = do found ← attempt (get_order_by_id p id); order ← or_not_found found; f order

module _ (p : Prisma) (rt : Runtime) where
  open p use {State}

  -- the part of the lookup below the read
  unfoldable pub show_found : String → OrderModel → Action State (Option OrderResponse)
  show_found user_id order =
      if not (order.user_id == user_id)
      then raise "forbidden: you do not own this order"
      else pure (response_of rt (some order))

  unfoldable pub get_customer_order : String → String → Action State (Option OrderResponse)
  get_customer_order user_id order_id = with_order p order_id (show_found user_id)

  unfoldable pub list_customer_orders : String → ℤ → ℤ → Action State OrderListResponse
  list_customer_orders user_id limit offset = do
    (orders, total) ← list_orders_by_user_id p user_id limit offset
    pure (record {
      orders = order_responses rt orders;
      total = total;
      limit = limit;
      offset = offset;
    })

  -- the guards of a cancellation, once the order is found
  unfoldable pub check_cancellable : String → OrderModel → Action State (Unit {0})
  check_cancellable user_id order =
      if not (is_empty user_id) && not (order.user_id == user_id)
      then raise "forbidden: you do not own this order"
      else if not (same_status order.status pending_payment)
      then raise ("cannot cancel order in " <> status_text order.status <> " status")
      else pure tt

  -- the part of the cancellation below the lookup
  unfoldable pub cancel_found :
      Draw → String → String → OrderModel → Action State (Option OrderResponse)
  cancel_found draw user_id order_id order = do
    check_cancellable user_id order
    updated ←
        update_order_status_with_outbox p order_id cancelled none none
          (some (cancel_outbox rt draw order))
    pure (response_of rt updated)

  unfoldable pub cancel_customer_order :
      Draw → String → String → Action State (Option OrderResponse)
  cancel_customer_order draw user_id order_id =
      with_order p order_id (cancel_found draw user_id order_id)
