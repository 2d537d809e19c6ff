-- ===== src/Scenarios/Customers.antt =====
-- The customer's methods of internal/service/order_service.go on the database of Fixtures.
use store_order.Base.{◌≡◌, ◌≤◌, refl, Option, some, List, [], ◌∷◌, pos, length, Memᴰ, Result}
use store_order.Schema.{OrderModel}
use store_order.Prisma.Memory.{memory, Memory, steps, row_of}
use store_order.Prisma.Memory.Rows.{tables}
use store_order.Prisma.Memory.Laws.{memory_laws}
use store_order.Repository.Orders.{
  update_order_status_with_outbox, insert_outbox, get_order_by_id, list_orders_by_user_id,
  with_total,
}
use store_order.Service.Response.{OrderResponse, OrderListResponse, to_order_response}
use store_order.Service.Response.Views.{Shows, ShowAll}
use store_order.Service.Customer.{
  cancel_customer_order, cancel_found, check_cancellable, get_customer_order, show_found,
  list_customer_orders,
}
use store_order.Service.Customer.Cancel.{cancel-done, Cancelled}
use store_order.Service.Customer.Reads.{get-IsOwned, list-IsOwned}
use store_order.Scenarios.Fixtures.{surroundings, draw, shop, unpaid_order}

abbrev cancel : Memory → Result (Option OrderResponse) × Memory
cancel = cancel_customer_order memory surroundings draw "ann" "o1"

cancel-done_example :
    (o : OrderModel) × (row_of "o1" shop.rows ≡ some o)
    × Cancelled memory surroundings memory_laws draw "ann" "o1" o shop (cancel shop).1
unfolding cancel_customer_order cancel_found check_cancellable update_order_status_with_outbox
    insert_outbox get_order_by_id steps
cancel-done_example = cancel-done memory surroundings memory_laws draw "ann" "o1" shop refl

get-IsOwned_example :
    (o : OrderModel) × (row_of "o1" shop.rows ≡ some o)
    × (o.user_id ≡ "ann")
    × ((view : OrderResponse) × (◌≡◌ {A = Option OrderResponse}
          (some (to_order_response surroundings unpaid_order))
          (some view))
        × Shows surroundings o view)
    × (tables (get_customer_order memory surroundings "ann" "o1" shop).1 ≡ tables shop)
unfolding get_customer_order show_found get_order_by_id steps
get-IsOwned_example = get-IsOwned memory surroundings memory_laws "ann" shop "o1" refl

abbrev first_page : OrderListResponse
first_page = record {
  orders = to_order_response surroundings unpaid_order ∷ [];
  total = 2;
  limit = pos 1;
  offset = pos 0;
}

list-IsOwned_example :
    (os : List OrderModel) × ShowAll surroundings os first_page.orders
    × (length os ≤ 1)
    × ((o : OrderModel) → Memᴰ o os → (o.user_id ≡ "ann") × (row_of o.id shop.rows ≡ some o))
    × (tables (list_customer_orders memory surroundings "ann" (pos 1) (pos 0) shop).1 ≡ tables shop)
unfolding list_customer_orders list_orders_by_user_id with_total steps
list-IsOwned_example =
    list-IsOwned memory surroundings memory_laws "ann" shop (pos 1) (pos 0) {r = first_page} refl
