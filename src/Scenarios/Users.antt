-- ===== src/Scenarios/Users.antt =====
-- The clean-ups of internal/service/order_service.go on the database of Fixtures.
use store_order.Base.{refl, trim_space}
use store_order.Prisma.Memory.{memory, steps}
use store_order.Prisma.Memory.Rows.{tables}
use store_order.Prisma.Memory.Laws.{memory_laws}
use store_order.Repository.Orders.{
  anonymize_user_orders_and_cancel_unpaid, anonymize_orders, update_each, insert_events,
  cancel_orders, cancel_unpaid_user_orders, list_orders_by_user_id, with_total,
}
use store_order.Service.Users.{
  handle_user_deleted, handle_user_banned, clean_up_deleted, clean_up_banned, cancellation_events,
}
use store_order.Service.Users.Lifecycle.{
  DeletesUser, BansUser, handle_user_deleted-done, handle_user_banned-done,
}
use store_order.Scenarios.Fixtures.{surroundings, draw, shop}

handle_user_deleted-done_example :
    DeletesUser surroundings
      (trim_space " ann")
      (tables shop)
      (tables (handle_user_deleted memory surroundings (λ i. draw) " ann" shop).1)
unfolding handle_user_deleted clean_up_deleted list_orders_by_user_id with_total cancellation_events
    anonymize_user_orders_and_cancel_unpaid anonymize_orders update_each insert_events trim_space
    steps
handle_user_deleted-done_example =
    handle_user_deleted-done memory surroundings memory_laws (λ i. draw) " ann" shop refl

handle_user_banned-done_example :
    BansUser surroundings
      (trim_space "ann")
      "fraud"
      (tables shop)
      (tables (handle_user_banned memory surroundings (λ i. draw) "ann" "fraud" shop).1)
unfolding handle_user_banned clean_up_banned list_orders_by_user_id with_total cancellation_events
    cancel_unpaid_user_orders cancel_orders update_each insert_events trim_space steps
handle_user_banned-done_example =
    handle_user_banned-done memory surroundings memory_laws (λ i. draw) "ann" shop "fraud" refl
