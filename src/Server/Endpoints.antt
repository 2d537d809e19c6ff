-- ===== src/Server/Endpoints.antt =====
-- What the endpoints of internal/handler may do to the database, over the service: those
-- of the customers that write. Reads has the others.
pub mod Reads
use store_order.Base.{
  String, ◌≡◌, refl, sym, ◌∙◌, ap, subst, Option, none, some, List, [], ◌∷◌, Result, ok, err, inl,
  inr, true, false, Bool-cases, is_empty, trim_space, ◌==◌,
}
use store_order.Prisma.{Prisma}
use store_order.Prisma.Tables.{PrismaLaws}
use store_order.Prisma.Changes.{Changes}
use store_order.Config.{Config}
use store_order.Midtrans.{WebhookNotification, verify_signature}
use store_order.Repository.Orders.{list_orders_by_user_id}
use store_order.Repository.Orders.Changes.{list_orders-Within}
use store_order.Service.Response.{OrderResponse, order_responses}
use store_order.Service.Checkout.{CheckoutRequest, checkout}
use store_order.Service.Customer.{
  get_customer_order, list_customer_orders, cancel_customer_order, show_found,
}
use store_order.Service.Webhook.Notifications.{webhook_forged}
use store_order.Product.{ItemOrderRequest}
use store_order.Service.Changes.{with_order-Within, pure-Within}
use store_order.Http.{
  respond_error, respond_json, orders_body, order_body, respond_validation_error, Request, Response,
  Handler, GatewayUser,
}
use store_order.Http.Handlers.{
  decoded, for_customer, with_id, answer, place, handle_checkout, handle_get_order,
  handle_list_orders, handle_cancel_order, handle_midtrans, notify, shown_order, get_refused,
}
use store_order.Server.{Platform, Readings, router_deps, on_database, validate, pay}
use store_order.Server.Ownership.{
  Owns, Owns-IsPreorder, checkout-Within, cancel-Within, nothing_done,
}
use store_order.Server.Guards.{
  Effect, unchanged, in_development, by_customer, by_gateway, IsForwarded, IsSafe,
}

module _ {B : Type 0} (o : Platform B) (cfg : Config) (p : Prisma) (l : PrismaLaws p)
    (d : Readings) where
  open l use {tables}

  abbrev Safe : Handler (p.State × B) → Type 0
  Safe = IsSafe o cfg p l

  for_customer_refused :
      (g : GatewayUser → p.State → Response × p.State) (r : Request) (s : p.State)
      (user : GatewayUser)
      → r.user ≡ some user
      → is_empty (trim_space user.id) ≡ true
      → (for_customer g r s).1 ≡ s
  for_customer_refused g r s user e blank = rw (e, blank) refl

  for_customer_admitted :
      (g : GatewayUser → p.State → Response × p.State) (r : Request) (s : p.State)
      (user : GatewayUser)
      → r.user ≡ some user
      → is_empty (trim_space user.id) ≡ false
      → (for_customer g r s).1 ≡ (g user s).1
  for_customer_admitted g r s user e named = rw (e, named) refl

  -- an endpoint of the customers does to the orders what it does for the user
  pub for_customer-IsSafe :
      (f : Request → GatewayUser → p.State → Response × p.State)
      → ((r : Request) (user : GatewayUser) (s : p.State)
          → is_empty user.id ≡ false
          → Changes (Owns user.id) (tables s) (tables (f r user s).1))
      → Safe (on_database λ r. for_customer (f r) r)
  for_customer-IsSafe f within = record { effect = λ r w forwarded. go r w forwarded r.user refl }
    where
      go :
          (r : Request) (w : p.State × B)
          → IsForwarded r
          → (u : Option GatewayUser) → r.user ≡ u
          → Effect o cfg r (tables w.0) (tables (for_customer (f r) r w.0).1)
      go r w forwarded none e = unchanged (rw e refl)
      go r (s, b) forwarded (some user) e = elim (Bool-cases (is_empty (trim_space user.id))) [
        | inl blank ↦ unchanged (ap tables (for_customer_refused (f r) r s user e blank))
        | inr named ↦
            let (given, id, role) = forwarded.user user e in
            let own : is_empty user.id ≡ false = ap is_empty id ∙ given in
            by_customer given (
              subst (λ u. Changes (Owns u) (tables s) (tables (for_customer (f r) r s).1)) id
                (subst (λ t. Changes (Owns user.id) (tables s) (tables t))
                  (sym (for_customer_admitted (f r) r s user e named)) (within r user s own)))
      ]

  -- what the service does is what the endpoint does
  pub answered :
      {A : Type 0} (user : String) (shown : A → Response) (refused : String → Response)
      (s : p.State) (x : Result A × p.State)
      → Changes (Owns user) (tables s) (tables x.1)
      → Changes (Owns user) (tables s) (tables (answer shown refused x).1)
  answered user shown refused s (ok a, s') c = c
  answered user shown refused s (err e, s') c = c

  -- an endpoint on the order of the path
  pub identified :
      (user : String) (r : Request) (g : p.State → Response × p.State) (s : p.State)
      → Changes (Owns user) (tables s) (tables (g s).1)
      → Changes (Owns user) (tables s) (tables (with_id r g s).1)
  identified user r g s c = elim (Bool-cases (is_empty (trim_space r.path_id))) [
    | inl blank ↦ rw blank (nothing_done p o.rt l user s)
    | inr named ↦ rw named c
  ]

  pub checkout-Safe : Safe (router_deps o cfg p d).checkout_handler
  unfolding handle_checkout
  checkout-Safe =
      for_customer-IsSafe
        (λ r.
          place o.decoders (checkout p o.rt (validate o cfg) (pay o cfg) d.order)
            (decoded o.decoders.read_checkout r))
        λ r user s _. go user s (decoded o.decoders.read_checkout r)
    where
      placed :
          (user : String) (s : p.State) (x : Result (Option OrderResponse) × p.State)
          (is : List ItemOrderRequest)
          → Changes (Owns user) (tables s) (tables x.1)
          → Changes (Owns user) (tables s) (
              tables
                (elim is as (λ _. Response × p.State) [
                  | [] ↦ (
                    respond_validation_error
                        (("items", "At least one item is required for checkout.") ∷ []),
                    s,
                  )
                  | i ∷ is ↦
                      answer
                        (λ shown. respond_json 201 (order_body shown))
                        (respond_error 400 "checkout_failed")
                        x
                ]).1)
      placed user s x [] c = nothing_done p o.rt l user s
      placed user s x (i ∷ is) c =
          answered user (λ shown. respond_json 201 (order_body shown))
            (respond_error 400 "checkout_failed") s x c

      go :
          (user : GatewayUser) (s : p.State) (body : Option CheckoutRequest)
          → Changes (Owns user.id) (tables s) (
              tables
                (place o.decoders
                  (checkout p o.rt (validate o cfg) (pay o cfg) d.order)
                  body
                  user
                  s).1)
      go user s none = nothing_done p o.rt l user.id s
      go user s (some req) =
          placed user.id s
            (checkout p o.rt (validate o cfg) (pay o cfg) d.order user.id user.email req s)
            req.items
            (checkout-Within p o.rt l user.id (validate o cfg) (pay o cfg) d.order user.email req s)

  pub cancel-Safe : Safe (router_deps o cfg p d).cancel_order_handler
  unfolding handle_cancel_order
  cancel-Safe =
      for_customer-IsSafe
        (λ r user. with_id r λ s.
          answer shown_order (respond_error 400 "cancellation_failed")
            (cancel_customer_order p o.rt d.envelope user.id r.path_id s))
        λ r user s named.
          identified user.id r
            (λ s.
              answer shown_order (respond_error 400 "cancellation_failed")
                (cancel_customer_order p o.rt d.envelope user.id r.path_id s))
            s
            (answered user.id shown_order (respond_error 400 "cancellation_failed") s
              (cancel_customer_order p o.rt d.envelope user.id r.path_id s)
              (cancel-Within p o.rt l user.id d.envelope r.path_id s named))
