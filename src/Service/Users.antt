-- ===== src/Service/Users.antt =====
-- HandleUserDeleted and HandleUserBanned of order_service.go.
pub mod Announcements
pub mod Lifecycle
use store_order.Base.{
  String, ℕ, suc, List, [], ◌∷◌, is_empty, if◌then◌else◌, Result, ok, err, wrapped, pos, Action,
  raise, lift, wrap, ◌>>=◌, ◌<>◌, trim_space,
}
use store_order.Schema.{pending_payment, cancelled, OrderModel, same_status}
use store_order.Runtime.{Runtime, Draw, DomainEventEnvelope}
use store_order.Prisma.{Prisma}
use store_order.Repository.{OutboxCreateInput}
use store_order.Repository.Orders.{
  list_orders_by_user_id, anonymize_user_orders_and_cancel_unpaid, cancel_unpaid_user_orders,
}
use store_order.Service.Events.{
  new_domain_event_envelope, build_order_event_data, event_type_order_cancelled, topic_order_events,
}

abbrev pub cleanup_envelope : Runtime → Draw → String → OrderModel → DomainEventEnvelope
cleanup_envelope rt draw reason order =
    new_domain_event_envelope rt draw event_type_order_cancelled
      (build_order_event_data rt (record order { status = cancelled }) reason)

-- here a failure to marshal is an error
abbrev cleanup_outbox : String → Result String → Result OutboxCreateInput
cleanup_outbox id (err e) = err e
cleanup_outbox id (ok payload) = ok (record {
  aggregate_type = "ORDER";
  aggregate_id = id;
  topic = topic_order_events;
  payload = payload;
})

abbrev prepend :
    Result OutboxCreateInput → Result (List OutboxCreateInput) → Result (List OutboxCreateInput)
prepend (err e) rest = err e
prepend (ok o) (err e) = err e
prepend (ok o) (ok os) = ok (o ∷ os)

-- The loop over the listed orders; `draws i` is what the i-th envelope draws. `failure` is the text
-- of a failure to marshal.
unfoldable pub cancellation_events :
    Runtime → (ℕ → Draw) → String → String → List OrderModel → Result (List OutboxCreateInput)
cancellation_events rt draws failure reason [] = ok []
cancellation_events rt draws failure reason (order ∷ orders) =
    let unpaid = same_status order.status pending_payment in
    let rest =
      cancellation_events rt (if unpaid then (λ i. draws (suc i)) else draws) failure reason
        orders in
    if unpaid
    then prepend
        (wrapped (failure <> order.id)
          (cleanup_outbox order.id (rt.marshal (cleanup_envelope rt (draws 0) reason order))))
        rest
    else rest

abbrev pub anonymized_email : String → String
anonymized_email user_id = "deleted_user_" <> user_id <> "@anonymized.local"

abbrev pub ban_reason : String → String
ban_reason reason =
    if is_empty (trim_space reason)
    then "User account banned"
    else "User account banned: " <> trim_space reason

abbrev pub page_size : ℕ
page_size = 1000

module _ (p : Prisma) (rt : Runtime) where
  open p use {State}

  -- the two handlers below the test of the user id
  unfoldable pub clean_up_deleted : (ℕ → Draw) → String → Action State (Unit {0})
  clean_up_deleted draws user = do
    (orders, total) ←
        wrap ("failed to fetch orders for user " <> user)
          (list_orders_by_user_id p user (pos page_size) (pos 0))
    events ← lift (
        cancellation_events rt draws "failed to marshal cancellation outbox event for order "
          "User account deleted" orders)
    wrap ("failed to anonymize and cancel orders for user " <> user)
        (anonymize_user_orders_and_cancel_unpaid p user (anonymized_email user) events)

  unfoldable pub handle_user_deleted : (ℕ → Draw) → String → Action State (Unit {0})
  unfolding clean_up_deleted
  handle_user_deleted draws user_id =
      if is_empty (trim_space user_id)
      then raise "user ID is required"
      else clean_up_deleted draws (trim_space user_id)

  unfoldable pub clean_up_banned : (ℕ → Draw) → String → String → Action State (Unit {0})
  clean_up_banned draws user reason = do
    (orders, total) ←
        wrap ("failed to fetch orders for banned user " <> user)
          (list_orders_by_user_id p user (pos page_size) (pos 0))
    events ← lift (
        cancellation_events rt draws
          "failed to marshal cancellation outbox event for banned user order " (ban_reason reason)
          orders)
    wrap ("failed to cancel unpaid orders for banned user " <> user)
        (cancel_unpaid_user_orders p user events)

  unfoldable pub handle_user_banned : (ℕ → Draw) → String → String → Action State (Unit {0})
  unfolding clean_up_banned
  handle_user_banned draws user_id reason =
      if is_empty (trim_space user_id)
      then raise "user ID is required"
      else clean_up_banned draws (trim_space user_id) reason
