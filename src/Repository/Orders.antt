-- ===== src/Repository/Orders.antt =====
-- internal/repository/order_repository.go: each method runs its queries (Queries) one
-- after the other, with no transaction around them.
pub mod Queries
pub mod Columns
pub mod Update
pub mod Creation
pub mod Changes
pub mod Loops
pub mod Cleanup
use store_order.Base.{
  ◌>>=◌, ◌>>◌, String, Option, none, some, List, [], ◌∷◌, true, false, ℤ, Action, pure, wrap,
  length, ℕ, ◌<>◌,
}
use store_order.Runtime.{Runtime}
use store_order.Schema.{OrderStatus, OrderModel, OrderSet, set_snap_token, set_snap_redirect_url}
use store_order.Prisma.{
  Prisma, by_id, by_order_number, OrderWhere, user_id_equals, status_in, status_equals,
}
use store_order.Repository.{
  OrderItemInput, OrderCreateInput, OutboxCreateInput, PaymentMetadata, ShippingMetadata,
  OrderFilter,
}
pub use store_order.Repository.Orders.Queries.{
  when, when_text, new_item, new_event, default_type, meta_params, shipping_params, update_params,
  anonymize_params, cancel_params, page_of, all_where, page_where, active_statuses,
  filter_conditions,
}
unfoldable pub use store_order.Repository.Orders.Queries.{optional_params}

module _ (p : Prisma) where
  open p use {State}

  unfoldable pub get_order_by_id : String → Action State (Option OrderModel)
  get_order_by_id id = p.find_order (by_id id)

  unfoldable pub get_order_by_order_number : String → Action State (Option OrderModel)
  get_order_by_order_number number = p.find_order (by_order_number number)

  -- the loop over the line items
  unfoldable pub insert_items : String → List OrderItemInput → Action State (Unit {0})
  insert_items order_id [] = pure tt
  insert_items order_id (item ∷ items) = do
    wrap "failed to insert order item" (p.create_order_item (new_item order_id item))
    insert_items order_id items

  -- `if outbox != nil { … }`
  unfoldable pub insert_outbox :
      String → String → Option OutboxCreateInput → Action State (Unit {0})
  insert_outbox failure id none = pure tt
  insert_outbox failure id (some outbox) = do
    wrap failure (p.create_outbox_event (new_event id outbox))
    pure tt

  unfoldable pub create_order_with_items_and_outbox :
      Runtime
      → OrderCreateInput
      → List OrderItemInput
      → Option OutboxCreateInput
      → Action State (Option OrderModel)
  unfolding get_order_by_id insert_items insert_outbox optional_params
  create_order_with_items_and_outbox rt input items outbox = do
    created ← wrap "failed to insert order" (
        p.create_order (record {
          order_number = input.order_number;
          user_id = input.user_id;
          user_email = input.user_email;
          total_amount = input.total_amount;
          params = optional_params rt input;
        }))
    insert_items created.id items
    insert_outbox "failed to insert initial outbox event" created.id outbox
    get_order_by_id created.id

  -- `return orders, len(total), nil`, after the second query
  unfoldable pub with_total : List OrderWhere → List OrderModel → Action State (List OrderModel × ℕ)
  with_total filters orders = do
    total ← p.find_orders (all_where filters)
    pure (orders, length total)

  unfoldable pub list_orders_by_user_id : String → ℤ → ℤ → Action State (List OrderModel × ℕ)
  list_orders_by_user_id user_id limit offset = do
    orders ← p.find_orders (page_where (user_id_equals user_id ∷ []) limit offset)
    with_total (user_id_equals user_id ∷ []) orders

  unfoldable pub list_active_orders_by_user_id : String → Action State (List OrderModel)
  list_active_orders_by_user_id user_id =
      wrap ("failed to fetch active orders for user " <> user_id) (
        p.find_orders (record {
          filters = user_id_equals user_id ∷ status_in active_statuses ∷ [];
          with_items = false;
          newest_first = true;
          page = none;
        }))

  unfoldable pub list_all_orders : OrderFilter → Action State (List OrderModel × ℕ)
  list_all_orders filter = do
    orders ← p.find_orders (page_where (filter_conditions filter) filter.limit filter.offset)
    with_total (filter_conditions filter) orders

  unfoldable pub update_order_status_with_outbox :
      String
      → OrderStatus
      → Option PaymentMetadata
      → Option ShippingMetadata
      → Option OutboxCreateInput
      → Action State (Option OrderModel)
  unfolding get_order_by_id insert_outbox
  update_order_status_with_outbox id status meta shipping outbox = do
    wrap "failed to update order status" (p.update_order id (update_params status meta shipping))
    insert_outbox "failed to insert outbox event" id outbox
    get_order_by_id id

  unfoldable pub update_snap_token : String → String → String → Action State (Unit {0})
  update_snap_token id token url = do
    p.update_order id (set_snap_token token ∷ set_snap_redirect_url url ∷ [])
    pure tt

  -- the second loop of the two methods below
  unfoldable pub insert_events : List OutboxCreateInput → Action State (Unit {0})
  insert_events [] = pure tt
  insert_events (outbox ∷ rest) = do
    wrap ("failed to persist cancellation outbox event for order " <> outbox.aggregate_id)
        (p.create_outbox_event (new_event outbox.aggregate_id (default_type outbox)))
    insert_events rest

  -- the first loop of the two methods below: an update of each of the orders that were read
  unfoldable pub update_each :
      (OrderModel → String)
      → (OrderStatus → List OrderSet)
      → List OrderModel
      → Action State (Unit {0})
  update_each failure sets [] = pure tt
  update_each failure sets (order ∷ orders) = do
    wrap (failure order) (p.update_order order.id (sets order.status))
    update_each failure sets orders

  unfoldable pub anonymize_orders : String → List OrderModel → Action State (Unit {0})
  anonymize_orders email =
      update_each (λ order. "failed to anonymize and update order " <> order.id)
        (anonymize_params email)

  unfoldable pub anonymize_user_orders_and_cancel_unpaid :
      String → String → List OutboxCreateInput → Action State (Unit {0})
  anonymize_user_orders_and_cancel_unpaid user_id email events = do
    orders ←
        wrap ("failed to list orders for user deletion cleanup (userID: " <> user_id <> ")")
          (p.find_orders (all_where (user_id_equals user_id ∷ [])))
    anonymize_orders email orders
    insert_events events

  unfoldable pub cancel_orders : List OrderModel → Action State (Unit {0})
  cancel_orders =
      update_each (λ order. "failed to cancel pending order " <> order.id <> " for banned user")
        (λ _. cancel_params)

  unfoldable pub cancel_unpaid_user_orders :
      String → List OutboxCreateInput → Action State (Unit {0})
  cancel_unpaid_user_orders user_id events = do
    orders ←
        wrap ("failed to find pending orders for banned user " <> user_id) (
          p.find_orders (all_where (user_id_equals user_id ∷ status_equals "PENDING_PAYMENT" ∷ [])))
    cancel_orders orders
    insert_events events
