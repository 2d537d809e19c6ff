-- ===== src/Scenarios/Webhooks.antt =====
-- ProcessMidtransWebhook of internal/service/order_service.go on the database of Fixtures.
use store_order.Base.{◌≡◌, ◌⊎◌, refl, some, true, false, trim_space, to_lower}
use store_order.Schema.{OrderModel, paid}
use store_order.Prisma.Memory.{memory, steps, row_of}
use store_order.Prisma.Memory.Rows.{tables}
use store_order.Prisma.Memory.Laws.{memory_laws}
use store_order.Repository.Orders.{
  update_order_status_with_outbox, insert_outbox, get_order_by_id, get_order_by_order_number,
}
use store_order.Midtrans.{WebhookNotification, verify_signature, determine_order_status}
use store_order.Service.Webhook.{
  process_midtrans_webhook, accept_webhook, settle, apply_notification,
}
use store_order.Service.Webhook.Notifications.{webhook-done, Settled}
use store_order.Scenarios.Fixtures.{surroundings, draw, shop}

-- The payment of an unpaid order, signed as the surroundings sign.
abbrev pub settlement : WebhookNotification
settlement = record {
  order_id = "ORD-1";
  status_code = "200";
  gross_amount = "100.00";
  signature_key = "ord-1200100.00key";
  transaction_status = "settlement";
  fraud_status = "";
  payment_type = "qris";
  transaction_time = "";
  transaction_id = "tx";
}

abbrev pub forged : WebhookNotification
forged = record settlement { signature_key = "ord-1200999.00key" }

webhook-done_example :
    ((◌≡◌ {A = _} false true) ⊎ (verify_signature surroundings "key" settlement ≡ true))
    × ((o : OrderModel) × (row_of o.id shop.rows ≡ some o)
        × (o.order_number ≡ "ORD-1")
        × Settled memory surroundings "key" false draw 7 settlement memory_laws paid true o
            (tables shop)
            (tables
              (process_midtrans_webhook memory surroundings "key" false draw 7 settlement shop).1))
unfolding process_midtrans_webhook accept_webhook settle apply_notification
    update_order_status_with_outbox insert_outbox get_order_by_id get_order_by_order_number
    verify_signature determine_order_status trim_space to_lower steps
webhook-done_example =
    webhook-done memory surroundings "key" false draw 7 settlement memory_laws shop refl

-- The gateway's word that the payment of the unpaid order expired, with its signature.
abbrev expiry : WebhookNotification
expiry = record settlement { transaction_status = "expire" }
