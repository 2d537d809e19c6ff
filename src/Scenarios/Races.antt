-- ===== src/Scenarios/Races.antt =====
-- Calls of internal/service/order_service.go between the lookup and the change of another, on the
-- database of Fixtures.
use store_order.Base.{◌≡◌, refl, some, List, [], ◌∷◌, false, trim_space, to_lower}
use store_order.Schema.{Time, OrderModel, pending_payment, paid, cancelled}
use store_order.Prisma.Memory.{memory, Memory, steps}
use store_order.Prisma.Memory.Rows.{tables}
use store_order.Prisma.Memory.Laws.{memory_laws}
use store_order.Prisma.Changes.{Changes}
use store_order.Repository.Orders.{
  update_order_status_with_outbox, insert_outbox, get_order_by_id, get_order_by_order_number,
}
use store_order.Midtrans.{verify_signature, determine_order_status}
use store_order.Service.Customer.{cancel_found, check_cancellable}
use store_order.Service.Webhook.{
  process_midtrans_webhook, accept_webhook, settle, apply_notification,
}
use store_order.LifeCycle.{cancels, notifies}
use store_order.LifeCycle.Interleaving.{Step, whole, begins, resumes, calls_of, run}
use store_order.LifeCycle.Interleaving.Races.{cancel_overwrites}
use store_order.LifeCycle.Interleaving.Traces.{Traced, run-Traced}
use store_order.Scenarios.Fixtures.{surroundings, draw, shop, unpaid_order}
use store_order.Scenarios.Webhooks.{settlement}
use store_order.Scenarios.Lives.{no_products, no_snap}

-- The payment arrives after the cancellation has read the unpaid order.
abbrev race : List Step
race = begins (cancels draw "ann" "o1") ∷ whole (notifies draw 7 settlement) ∷ resumes 0 ∷ []

run-Traced_example :
    Changes
      (Traced memory surroundings "key" false no_products no_snap memory_laws (calls_of race))
      (tables shop)
      (tables (run surroundings "key" false memory no_products no_snap race (shop, [])).0)
run-Traced_example =
    run-Traced memory surroundings "key" false no_products no_snap memory_laws race shop

abbrev paid_order : OrderModel
paid_order = record unpaid_order {
  status = paid;
  payment_type = some "qris";
  midtrans_transaction_id = some "tx";
  paid_at = some 0;
  updated_at = 1;
}

abbrev paid_shop : Memory
paid_shop = (process_midtrans_webhook memory surroundings "key" false draw 7 settlement shop).1

cancel_overwrites_example :
    (unpaid_order.status ≡ pending_payment)
    × ((now : Time) × ((tables
              (cancel_found memory surroundings draw "ann" "o1" unpaid_order paid_shop).1).order
            "o1"
          ≡ some (record paid_order { status = cancelled; updated_at = now })))
unfolding process_midtrans_webhook accept_webhook settle apply_notification cancel_found
    check_cancellable update_order_status_with_outbox insert_outbox get_order_by_id
    get_order_by_order_number verify_signature determine_order_status trim_space to_lower steps
cancel_overwrites_example =
    cancel_overwrites memory surroundings memory_laws draw "ann" "o1" unpaid_order paid_order
      paid_shop refl refl
