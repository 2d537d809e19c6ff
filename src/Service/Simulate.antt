-- ===== src/Service/Simulate.antt =====
-- SimulatePaymentSuccess, SimulateOrderCancel and SimulateOrderExpire of order_service.go. None of
-- them looks at the order's status, but for the cancellation.
pub mod Effects
use store_order.Base.{String, Option, none, some, Action, pure, ◌>>=◌, ◌<>◌, put}
use store_order.Schema.{Time, OrderModel, paid, expired}
use store_order.Runtime.{Runtime, Draw}
use store_order.Prisma.{Prisma}
use store_order.Repository.{OutboxCreateInput, PaymentMetadata}
use store_order.Repository.Orders.{update_order_status_with_outbox}
use store_order.Service.Events.{
  new_domain_event_envelope, order_outbox, build_order_event_data, event_type_order_paid,
  event_type_order_expired, str,
}
use store_order.Service.Response.{OrderResponse, response_of}
use store_order.Service.Customer.{with_order, cancel_customer_order}

-- `short_id` is the first eight characters of a new UUID
abbrev pub simulated_meta : String → Time → PaymentMetadata
simulated_meta short_id now = record {
  payment_type = "dev_simulation_qris";
  midtrans_transaction_id = "sim_tx_" <> short_id;
  paid_at = some now;
}

abbrev pub paid_outbox : Runtime → Draw → String → Time → OrderModel → OutboxCreateInput
paid_outbox rt draw short_id now order = order_outbox rt order.id (
    new_domain_event_envelope rt draw event_type_order_paid (
      put "paidAt" (str (rt.rfc3339_utc now)) (
        put "midtransTransactionId" (str ("sim_tx_" <> short_id)) (
          put "paymentType" (str "dev_simulation_qris")
            (build_order_event_data rt (record order { status = paid }) "")))))

abbrev pub expired_outbox : Runtime → Draw → OrderModel → OutboxCreateInput
expired_outbox rt draw order = order_outbox rt order.id (
    new_domain_event_envelope rt draw event_type_order_expired
      (build_order_event_data rt (record order { status = expired }) "Dev simulation expired"))

module _ (p : Prisma) (rt : Runtime) where
  open p use {State}

  -- the parts below the lookups
  unfoldable pub pay_found :
      Draw → String → Time → String → OrderModel → Action State (Option OrderResponse)
  pay_found draw short_id now order_id order = do
    updated ←
        update_order_status_with_outbox p order_id paid (some (simulated_meta short_id now)) none
          (some (paid_outbox rt draw short_id now order))
    pure (response_of rt updated)

  unfoldable pub expire_found : Draw → String → OrderModel → Action State (Option OrderResponse)
  expire_found draw order_id order = do
    updated ←
        update_order_status_with_outbox p order_id expired none none
          (some (expired_outbox rt draw order))
    pure (response_of rt updated)

  unfoldable pub simulate_payment_success :
      Draw → String → Time → String → Action State (Option OrderResponse)
  simulate_payment_success draw short_id now order_id =
      with_order p order_id (pay_found draw short_id now order_id)

  unfoldable pub simulate_order_cancel : Draw → String → Action State (Option OrderResponse)
  simulate_order_cancel draw order_id = cancel_customer_order p rt draw "" order_id

  unfoldable pub simulate_order_expire : Draw → String → Action State (Option OrderResponse)
  simulate_order_expire draw order_id = with_order p order_id (expire_found draw order_id)
