-- ===== src/Service/Webhook.antt =====
-- ProcessMidtransWebhook of order_service.go.
pub mod Notifications
pub mod Payments
use store_order.Base.{
  String, Option, none, some, Bool, true, false, not, ◌&&◌, is_empty, if◌then◌else◌, Result, ok,
  err, Action, pure, raise, attempt, ◌>>=◌, ◌>>◌, ◌<>◌, put,
}
use store_order.Schema.{Time, OrderStatus, paid, cancelled, expired, OrderModel, same_status}
use store_order.Runtime.{Runtime, Draw, EventData}
use store_order.Prisma.{Prisma}
use store_order.Repository.{OutboxCreateInput, PaymentMetadata}
use store_order.Repository.Orders.{get_order_by_order_number, update_order_status_with_outbox}
use store_order.Midtrans.{WebhookNotification, verify_signature, determine_order_status}
use store_order.Service.Events.{
  new_domain_event_envelope, order_outbox, build_order_event_data, event_type_order_paid,
  event_type_order_cancelled, event_type_order_expired, str,
}

-- the event type and the reason of a target status; no type, no event
abbrev pub event_of : OrderStatus → Option (String × String)
event_of paid = some (event_type_order_paid, "")
event_of cancelled = some (event_type_order_cancelled, "Midtrans transaction cancelled or denied")
event_of expired = some (event_type_order_expired, "Payment expired")
event_of _ = none

abbrev pub payment_meta : WebhookNotification → Time → PaymentMetadata
payment_meta notif now = record {
  payment_type = notif.payment_type;
  midtrans_transaction_id = notif.transaction_id;
  paid_at = some now;
}

abbrev with_paid_at : Runtime → OrderStatus → Time → EventData → EventData
with_paid_at rt target now d =
    if same_status target paid then put "paidAt" (str (rt.rfc3339_utc now)) d else d

abbrev webhook_data :
    Runtime → WebhookNotification → OrderStatus → Time → OrderModel → String → EventData
webhook_data rt notif target now order reason = with_paid_at rt target now (
    put "midtransTransactionId" (str notif.transaction_id) (
      put "paymentType" (str notif.payment_type)
        (build_order_event_data rt (record order { status = target }) reason)))

-- what a notification stores in the outbox
abbrev pub webhook_outbox :
    Runtime
    → Draw
    → WebhookNotification
    → OrderStatus
    → Time
    → OrderModel
    → Option (String × String)
    → Option OutboxCreateInput
webhook_outbox rt draw notif target now order none = none
webhook_outbox rt draw notif target now order (some (event_type, reason)) = some (
    order_outbox rt order.id (
      new_domain_event_envelope rt draw event_type (webhook_data rt notif target now order reason)))

abbrev pub or_unknown_number :
    {S : Type 0} → String → Result (Option OrderModel) → Action S OrderModel
or_unknown_number number (ok (some order)) = pure order
or_unknown_number number (ok none) =
    raise ("order not found for order number " <> number <> ": %!w(<nil>)")
or_unknown_number number (err e) =
    raise ("order not found for order number " <> number <> ": " <> e)

module _ (p : Prisma) (rt : Runtime) (server_key : String) (is_dev_mode : Bool) where
  open p use {State}

  -- the part below the idempotency check
  unfoldable pub apply_notification :
      Draw → Time → WebhookNotification → OrderStatus → OrderModel → Action State (Unit {0})
  apply_notification draw now notif target order = do
    update_order_status_with_outbox p order.id target (some (payment_meta notif now)) none
        (webhook_outbox rt draw notif target now order (event_of target))
    pure tt

  -- an unknown state, or the state that the order is in, changes nothing
  unfoldable pub settle :
      Draw → Time → WebhookNotification → OrderStatus × Bool → OrderModel → Action State (Unit {0})
  unfolding apply_notification
  settle draw now notif (target, known) order =
      if not known
      then pure tt
      else if same_status order.status target
      then pure tt
      else apply_notification draw now notif target order

  -- the part below the check of the signature
  unfoldable pub accept_webhook : Draw → Time → WebhookNotification → Action State (Unit {0})
  accept_webhook draw now notif = do
    found ← attempt (get_order_by_order_number p notif.order_id)
    order ← or_unknown_number notif.order_id found
    settle draw now notif (determine_order_status rt notif) order

  unfoldable pub process_midtrans_webhook :
      Draw → Time → WebhookNotification → Action State (Unit {0})
  process_midtrans_webhook draw now notif =
      if not is_dev_mode && not (verify_signature rt server_key notif)
      then raise "invalid midtrans webhook signature"
      else accept_webhook draw now notif
