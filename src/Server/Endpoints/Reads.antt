-- ===== src/Server/Endpoints/Reads.antt =====
-- The endpoints that read, for a customer, and the one of the payment gateway.
use store_order.Base.{String, ◌≡◌, refl, Option, none, some, inl, inr, Bool-cases, ◌==◌}
use store_order.Prisma.{Prisma}
use store_order.Prisma.Tables.{PrismaLaws}
use store_order.Prisma.Changes.{Changes}
use store_order.Config.{Config}
use store_order.Midtrans.{WebhookNotification, verify_signature}
use store_order.Repository.Orders.{list_orders_by_user_id}
use store_order.Repository.Orders.Changes.{list_orders-Within}
use store_order.Service.Response.{order_responses}
use store_order.Service.Customer.{get_customer_order, list_customer_orders, show_found}
use store_order.Service.Webhook.Notifications.{webhook_forged}
use store_order.Service.Changes.{with_order-Within, pure-Within}
use store_order.Http.{respond_error, respond_json, orders_body, Request, Handler}
use store_order.Http.Handlers.{
  decoded, with_id, answer, handle_get_order, handle_list_orders, handle_midtrans, notify,
  shown_order, get_refused,
}
use store_order.Server.{Platform, Readings, router_deps}
use store_order.Server.Ownership.{Owns, Owns-IsPreorder, nothing_done}
use store_order.Server.Guards.{Effect, unchanged, in_development, by_gateway, IsSafe}
use store_order.Server.Endpoints.{for_customer-IsSafe, identified, answered}

module _ {B : Type 0} (o : Platform B) (cfg : Config) (p : Prisma) (l : PrismaLaws p)
    (d : Readings) where
  open l use {tables}

  abbrev Safe : Handler (p.State × B) → Type 0
  Safe = IsSafe o cfg p l

  -- a customer's reads leave every row as it was
  get-Within :
      (user id : String) (s : p.State)
      → Changes (Owns user) (tables s) (tables (get_customer_order p o.rt user id s).1)
  unfolding get_customer_order show_found
  get-Within user id s =
      with_order-Within (Owns user) (Owns-IsPreorder user) p l id (show_found p o.rt user) s
        λ order s' row. elim (Bool-cases (order.user_id == user)) [
          | inl own ↦ rw own (nothing_done p o.rt l user s')
          | inr other ↦ rw other (nothing_done p o.rt l user s')
        ]

  pub get-Safe : Safe (router_deps o cfg p d).get_order_handler
  unfolding handle_get_order
  get-Safe =
      for_customer-IsSafe o cfg p l d
        (λ r user. with_id r λ s.
          answer shown_order (get_refused o.rt) (get_customer_order p o.rt user.id r.path_id s))
        λ r user s named.
          identified o cfg p l d user.id r
            (λ s.
              answer shown_order (get_refused o.rt) (get_customer_order p o.rt user.id r.path_id s))
            s
            (answered o cfg p l d user.id shown_order (get_refused o.rt) s
              (get_customer_order p o.rt user.id r.path_id s) (get-Within user.id r.path_id s))

  pub list-Safe : Safe (router_deps o cfg p d).list_orders_handler
  unfolding handle_list_orders list_customer_orders
  list-Safe =
      for_customer-IsSafe o cfg p l d
        (λ r user s.
          answer (λ list. respond_json 200 (orders_body list))
            (λ _. respond_error 500 "internal_error" "Failed to retrieve order history.")
            (list_customer_orders p o.rt user.id (o.decoders.atoi (r.query "limit"))
              (o.decoders.atoi (r.query "offset")) s))
        λ r user s named.
          let limit = o.decoders.atoi (r.query "limit") in
          let offset = o.decoders.atoi (r.query "offset") in
          answered o cfg p l d user.id (λ list. respond_json 200 (orders_body list))
            (λ _. respond_error 500 "internal_error" "Failed to retrieve order history.") s
            (list_customer_orders p o.rt user.id limit offset s)
            (pure-Within (Owns user.id) (Owns-IsPreorder user.id) p l
              (list_orders_by_user_id p user.id limit offset)
              (λ listed. record {
                orders = order_responses o.rt listed.0;
                total = listed.1;
                limit = limit;
                offset = offset;
              })
              s
              (list_orders-Within (Owns user.id) (Owns-IsPreorder user.id) p l user.id limit offset
                s))

  pub webhook-Safe : Safe (router_deps o cfg p d).midtrans_handler
  unfolding handle_midtrans
  webhook-Safe = record { effect = λ r w _. go r w (decoded o.decoders.read_webhook r) refl }
    where
      go :
          (r : Request) (w : p.State × B) (n : Option WebhookNotification)
          → decoded o.decoders.read_webhook r ≡ n
          → Effect o cfg r (tables w.0) (
              tables
                (notify p o.rt o.decoders cfg.midtrans_server_key cfg.dev d.envelope d.now n w.0).1)
      go r w none e = unchanged refl
      go r w (some notif) e = elim (Bool-cases cfg.dev) [
        | inl dev ↦ in_development dev
        | inr production ↦ elim (Bool-cases (verify_signature o.rt cfg.midtrans_server_key notif)) [
          | inl genuine ↦ by_gateway notif e genuine
          | inr forged ↦ unchanged (
              rw
                (webhook_forged p o.rt cfg.midtrans_server_key cfg.dev d.envelope d.now notif w.0
                  production forged)
                refl)
        ]
      ]
