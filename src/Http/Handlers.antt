-- ===== src/Http/Handlers.antt =====
-- internal/handler: order_handler.go, admin_handler.go, webhook_handler.go and dev_handler.go. The JSON
-- decoder, which also refuses a body beyond its limit, and strconv.Atoi are parameters.
use store_order.Base.{
  String, Option, none, some, [], ◌∷◌, Bool, is_empty, if◌then◌else◌, Result, ok, err, ℤ,
  trim_space, Action, contains,
}
use store_order.Schema.{Time}
use store_order.Runtime.{Runtime, Draw, lower_text, upper_text}
use store_order.Prisma.{Prisma}
use store_order.Repository.{OrderFilter}
use store_order.Midtrans.{WebhookNotification}
use store_order.Service.Response.{OrderResponse}
use store_order.Service.Checkout.{CheckoutRequest}
use store_order.Service.Customer.{get_customer_order, list_customer_orders, cancel_customer_order}
use store_order.Service.Admin.{admin_update_status, admin_list_orders}
use store_order.Service.Simulate.{
  simulate_payment_success, simulate_order_cancel, simulate_order_expire,
}
use store_order.Service.Webhook.{process_midtrans_webhook}
use store_order.Http.Common.{limit_request_body, default_max_body_bytes}
use store_order.Http.{
  Request, Response, Handler, GatewayUser, order_body, orders_body, texts_body, simulated_body,
  respond_json, respond_error, respond_validation_error,
}

pub record UpdateStatusRequest : Type 0 where
  pub status : String
  pub courier_name : String
  pub receipt_number : String

-- json.NewDecoder(r.Body).Decode at the three types, of a body with its limit, and the number that
-- strconv.Atoi returns beside its error
pub record Decoders : Type 0 where
  pub read_checkout : Option ℤ → String → Option CheckoutRequest
  pub read_update_status : Option ℤ → String → Option UpdateStatusRequest
  pub read_webhook : Option ℤ → String → Option WebhookNotification
  pub atoi : String → ℤ

abbrev unauthorized : Response
unauthorized = respond_error 401 "unauthorized" "Authentication required."

abbrev pub no_id : Response
no_id = respond_error 400 "bad_request" "Order ID parameter is required."

-- the guard of the customer's endpoints
abbrev pub for_customer : {S : Type 0} → (GatewayUser → S → Response × S) → Handler S
for_customer f r s = elim r.user [
  | none ↦ (unauthorized, s)
  | some user ↦ if is_empty (trim_space user.id) then (unauthorized, s) else f user s
]

abbrev pub with_id : {S : Type 0} → Request → (S → Response × S) → S → Response × S
with_id r f s = if is_empty (trim_space r.path_id) then (no_id, s) else f s

-- what an endpoint answers to the result of the service
abbrev pub answer :
    {S A : Type 0} → (A → Response) → (String → Response) → Result A × S → Response × S
answer shown refused (ok a, s) = (shown a, s)
answer shown refused (err e, s) = (refused e, s)

abbrev pub shown_order : Option OrderResponse → Response
shown_order o = respond_json 200 (order_body o)

abbrev pub get_refused : Runtime → String → Response
get_refused rt e =
    if contains (lower_text rt e) "forbidden"
    then respond_error 403 "forbidden" e
    else respond_error 404 "not_found" "Order not found."

-- what is decoded of a body that LimitRequestBody has limited
abbrev pub decoded : {A : Type 0} → (Option ℤ → String → Option A) → Request → Option A
decoded read r =
    let limited = limit_request_body default_max_body_bytes r in
    read limited.body_limit limited.body

module _ {S : Type 0} (d : Decoders)
    (checkout : String → String → CheckoutRequest → Action S (Option OrderResponse)) where
  -- the part of Checkout below the guard
  abbrev pub place : Option CheckoutRequest → GatewayUser → S → Response × S
  place none user s = (respond_error 400 "bad_request" "Invalid JSON payload.", s)
  place (some req) user s = elim req.items [
    | [] ↦ (
      respond_validation_error (("items", "At least one item is required for checkout.") ∷ []),
      s,
    )
    | item ∷ items ↦
        answer (λ o. respond_json 201 (order_body o)) (respond_error 400 "checkout_failed")
          (checkout user.id user.email req s)
  ]

  unfoldable pub handle_checkout : Handler S
  handle_checkout r = for_customer (place (decoded d.read_checkout r)) r

module _ (p : Prisma) (rt : Runtime) (d : Decoders) where
  unfoldable pub handle_get_order : Handler p.State
  handle_get_order r =
      for_customer
        (λ user.
          with_id r
            λ s. answer shown_order (get_refused rt) (get_customer_order p rt user.id r.path_id s))
        r

  unfoldable pub handle_list_orders : Handler p.State
  handle_list_orders r =
      for_customer
        (λ user s.
          answer (λ list. respond_json 200 (orders_body list))
            (λ _. respond_error 500 "internal_error" "Failed to retrieve order history.")
            (list_customer_orders p rt user.id (d.atoi (r.query "limit"))
              (d.atoi (r.query "offset")) s))
        r

  unfoldable pub handle_cancel_order : Draw → Handler p.State
  handle_cancel_order draw r =
      for_customer
        (λ user. with_id r λ s.
          answer shown_order (respond_error 400 "cancellation_failed")
            (cancel_customer_order p rt draw user.id r.path_id s))
        r

  -- the part of UpdateOrderStatus below the test of the path
  abbrev pub update : Draw → String → Option UpdateStatusRequest → p.State → Response × p.State
  update draw id none s = (respond_error 400 "bad_request" "Invalid JSON payload.", s)
  update draw id (some req) s =
      if is_empty (trim_space req.status)
      then (respond_validation_error (("status", "Target status is required.") ∷ []), s)
      else answer shown_order (respond_error 400 "update_failed") (
          admin_update_status p rt draw id req.status (trim_space req.courier_name)
            (trim_space req.receipt_number) s)

  unfoldable pub handle_update_order_status : Draw → Handler p.State
  handle_update_order_status draw r =
      with_id r (update draw r.path_id (decoded d.read_update_status r))

  -- every error of the service is answered as one of authorization
  abbrev pub notify :
      String → Bool → Draw → Time → Option WebhookNotification → p.State → Response × p.State
  notify key dev draw now none s =
      (respond_error 400 "bad_request" "Invalid notification payload format.", s)
  notify key dev draw now (some notif) s =
      answer
        (λ _. respond_json 200 (
          texts_body (
            ("status", "success")
            ∷ ("message", "Notification received and processed successfully.")
            ∷ [])))
        (respond_error 401 "unauthorized") (process_midtrans_webhook p rt key dev draw now notif s)

  unfoldable pub handle_midtrans : String → Bool → Draw → Time → Handler p.State
  handle_midtrans key dev draw now r = notify key dev draw now (decoded d.read_webhook r)

  -- the filter that AdminHandler.ListOrders reads from the query
  abbrev pub filter_of : Request → OrderFilter
  filter_of r =
      let status = upper_text rt (trim_space (r.query "status")) in
      record {
        user_id = trim_space (r.query "userId");
        status = if is_empty status then none else some status;
        search = trim_space (r.query "search");
        limit = d.atoi (r.query "limit");
        offset = d.atoi (r.query "offset");
        sort_order = "";
      }

  unfoldable pub handle_admin_list_orders : Handler p.State
  handle_admin_list_orders r s =
      answer (λ list. respond_json 200 (orders_body list))
        (λ _. respond_error 500 "internal_error" "Failed to retrieve admin orders.")
        (admin_list_orders p rt (filter_of r) s)

  -- what the three simulations answer
  abbrev pub simulated : String → Result (Option OrderResponse) × p.State → Response × p.State
  simulated message =
      answer (λ o. respond_json 200 (simulated_body message o))
        (respond_error 400 "simulation_failed")

  unfoldable pub handle_simulate_success : Draw → String → Time → Handler p.State
  handle_simulate_success draw short_id now r = with_id r λ s.
      simulated
        "Order payment simulated successfully. Order transitioned to PAID and order.paid event queued."
        (simulate_payment_success p rt draw short_id now r.path_id s)

  unfoldable pub handle_simulate_cancel : Draw → Handler p.State
  handle_simulate_cancel draw r = with_id r λ s.
      simulated
        "Order cancellation simulated successfully. Order transitioned to CANCELLED and order.cancelled event queued."
        (simulate_order_cancel p rt draw r.path_id s)

  unfoldable pub handle_simulate_expire : Draw → Handler p.State
  handle_simulate_expire draw r = with_id r λ s.
      simulated
        "Order expiration simulated successfully. Order transitioned to EXPIRED and order.expired event queued."
        (simulate_order_expire p rt draw r.path_id s)
