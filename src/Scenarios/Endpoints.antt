-- ===== src/Scenarios/Endpoints.antt =====
-- The endpoints of internal/handler and the guards of internal/middleware on the database of Fixtures.
use store_order.Base.{◌≡◌, refl, Option, none, some, pos, trim_space}
use store_order.Schema.{OrderModel}
use store_order.Prisma.Memory.{memory, steps, row_of}
use store_order.Prisma.Memory.Rows.{tables}
use store_order.Prisma.Memory.Laws.{memory_laws}
use store_order.Repository.Orders.{update_order_status_with_outbox, insert_outbox, get_order_by_id}
use store_order.Service.Response.{to_order_response}
use store_order.Service.Customer.{
  cancel_customer_order, cancel_found, check_cancellable, get_customer_order, show_found,
}
use store_order.Service.Customer.Cancel.{Cancelled}
use store_order.Http.{Request, GatewayUser}
use store_order.Http.Handlers.{Decoders, shown_order, handle_cancel_order, handle_get_order}
use store_order.Http.Access.{handle_cancel_order-ok, handle_get_order-ok}
use store_order.Scenarios.Fixtures.{surroundings, draw, shop}

abbrev decoders : Decoders
decoders = record {
  read_checkout = λ limit body. none;
  read_update_status = λ limit body. none;
  read_webhook = λ limit body. none;
  atoi = λ digits. pos 0;
}

abbrev ann : GatewayUser
ann = record { id = "ann"; email = "mail"; role = "admin" }

abbrev of_o1 : Request
of_o1 = record {
  method = "POST";
  path = "/api/v1/orders/o1/cancel";
  header = λ name. "";
  remote_addr = "10.0.0.1:80";
  user = some ann;
  trace_id = none;
  path_id = "o1";
  query = λ name. "";
  body = "";
  body_limit = none;
}

handle_cancel_order-ok_example :
    (user : GatewayUser) × (◌≡◌ {A = Option GatewayUser} (some ann) (some user))
    × ((o : OrderModel) × (row_of "o1" shop.rows ≡ some o)
        × (o.user_id ≡ user.id)
        × Cancelled memory surroundings memory_laws draw user.id "o1" o shop
            (handle_cancel_order memory surroundings decoders draw of_o1 shop).1)
unfolding handle_cancel_order cancel_customer_order cancel_found check_cancellable
    update_order_status_with_outbox insert_outbox get_order_by_id trim_space steps
handle_cancel_order-ok_example =
    handle_cancel_order-ok memory surroundings decoders memory_laws of_o1 shop draw refl

handle_get_order-ok_example :
    (user : GatewayUser) × (◌≡◌ {A = Option GatewayUser} (some ann) (some user))
    × ((o : OrderModel) × (row_of "o1" shop.rows ≡ some o)
        × (o.user_id ≡ user.id)
        × ((handle_get_order memory surroundings decoders of_o1 shop).0
            ≡ shown_order (some (to_order_response surroundings o)))
        × (tables (handle_get_order memory surroundings decoders of_o1 shop).1 ≡ tables shop))
unfolding handle_get_order get_customer_order show_found get_order_by_id trim_space steps
handle_get_order-ok_example =
    handle_get_order-ok memory surroundings decoders memory_laws of_o1 shop refl
