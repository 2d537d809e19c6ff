-- ===== src/Scenarios/Accounts.antt =====
-- internal/grpc/mapper.go and internal/grpc/order_service.go on the database of Fixtures.
use store_order.Base.{◌≡◌, ◌↔◌, refl, some, [], ◌∷◌, true, false, is_empty, trim_space, pos}
use store_order.Schema.{paid}
use store_order.Prisma.Memory.{memory, steps}
use store_order.Prisma.Memory.Rows.{tables}
use store_order.Prisma.Memory.Laws.{memory_laws}
use store_order.Repository.Orders.{list_active_orders_by_user_id}
use store_order.Grpc.{
  CheckActiveOrdersResponse, check_active_orders, map_order_model_to_active_summary,
  map_db_status_to_proto, map_proto_status_to_db, proto_paid,
}
use store_order.Grpc.Statuses.{map_proto_status_to_db_iff}
use store_order.Grpc.Preflight.{check_active_orders-Reports, Reports}
use store_order.Scenarios.Fixtures.{surroundings, shop, unpaid_order, shipped_order}

map_proto_status_to_db_iff_example :
    (map_proto_status_to_db proto_paid ≡ some paid) ↔ (proto_paid ≡ map_db_status_to_proto paid)
map_proto_status_to_db_iff_example = map_proto_status_to_db_iff proto_paid paid

abbrev blocked : CheckActiveOrdersResponse
blocked = record {
  has_active_orders = true;
  active_order_count = pos 2;
  active_orders =
      map_order_model_to_active_summary surroundings unpaid_order
      ∷ map_order_model_to_active_summary surroundings shipped_order
      ∷ [];
  message = "User has 1 active order(s) blocking account deletion";
}

check_active_orders-Reports_example :
    (is_empty (trim_space " ann") ≡ false)
    × Reports memory surroundings memory_laws shop (trim_space " ann") blocked
    × (tables (check_active_orders memory surroundings (some " ann") shop).1 ≡ tables shop)
unfolding check_active_orders list_active_orders_by_user_id trim_space steps
check_active_orders-Reports_example =
    check_active_orders-Reports memory surroundings memory_laws shop (some " ann") {r = blocked}
      refl
