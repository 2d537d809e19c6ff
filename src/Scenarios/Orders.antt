-- ===== src/Scenarios/Orders.antt =====
-- internal/repository/order_repository.go on the database of Fixtures.
use store_order.Base.{Option, Result, ◌≡◌, refl, none, some, [], ◌∷◌, ok}
use store_order.Schema.{OrderModel, cancelled, pending_payment}
use store_order.Prisma.Memory.{memory, Memory, steps}
use store_order.Prisma.Memory.Laws.{memory_laws}
use store_order.Prisma.Memory.Rows.{tables}
use store_order.Repository.{OutboxCreateInput}
use store_order.Repository.Orders.{
  anonymize_user_orders_and_cancel_unpaid, anonymize_orders, update_each, insert_events,
  cancel_orders, cancel_unpaid_user_orders, update_order_status_with_outbox,
}
use store_order.Repository.Orders.Update.{Outcome, update-Outcome}
use store_order.Repository.Orders.Cleanup.{
  anonymize-IsCleanedUp, cancel_unpaid-IsCleanedUp, IsCleanedUp, anonymized, banned,
}
use store_order.Repository.Orders.Loops.{asked_each}
use store_order.Scenarios.Fixtures.{shop}

abbrev entry : OutboxCreateInput
entry = record { aggregate_type = ""; aggregate_id = "o1"; topic = "order.events"; payload = "p" }

-- An entry that the database refuses.
abbrev no_topic : OutboxCreateInput
no_topic = record { aggregate_type = ""; aggregate_id = "o1"; topic = ""; payload = "p" }

anonymize_runs :
    (anonymize_user_orders_and_cancel_unpaid memory "ann" "gone" (entry ∷ []) shop).0 ≡ ok tt
unfolding anonymize_user_orders_and_cancel_unpaid anonymize_orders update_each insert_events steps
anonymize_runs = refl

anonymize-IsCleanedUp_example :
    IsCleanedUp
      (λ o. o.user_id ≡ "ann")
      (anonymized "gone")
      (asked_each (entry ∷ []))
      (tables shop)
      (tables (anonymize_user_orders_and_cancel_unpaid memory "ann" "gone" (entry ∷ []) shop).1)
anonymize-IsCleanedUp_example =
    anonymize-IsCleanedUp memory memory_laws "ann" (entry ∷ []) shop "gone" anonymize_runs

cancel_unpaid_runs : (cancel_unpaid_user_orders memory "ann" (entry ∷ []) shop).0 ≡ ok tt
unfolding cancel_unpaid_user_orders cancel_orders update_each insert_events steps
cancel_unpaid_runs = refl

cancel_unpaid-IsCleanedUp_example :
    IsCleanedUp
      (λ o. (o.user_id ≡ "ann") × (o.status ≡ pending_payment))
      banned
      (asked_each (entry ∷ []))
      (tables shop)
      (tables (cancel_unpaid_user_orders memory "ann" (entry ∷ []) shop).1)
cancel_unpaid-IsCleanedUp_example =
    cancel_unpaid-IsCleanedUp memory memory_laws "ann" (entry ∷ []) shop cancel_unpaid_runs

abbrev refused : Result (Option OrderModel) × Memory
refused = update_order_status_with_outbox memory "o1" cancelled none none (some no_topic) shop

update-Outcome_example :
    Outcome memory memory_laws "o1" cancelled none none
      (some no_topic)
      shop
      refused.0
      (tables shop)
      (tables refused.1)
update-Outcome_example =
    update-Outcome memory memory_laws "o1" cancelled none none (some no_topic) shop
