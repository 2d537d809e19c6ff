-- ===== src/Repository/Orders/Queries.antt =====
-- What the methods of internal/repository/order_repository.go build before they run a query: the
-- assigned columns, the new rows, the filters and the pages.
use store_order.Base.{
  String, Option, none, some, List, [], ◌∷◌, ◌++◌, Bool, true, false, not, nat_eq, is_empty,
  if◌then◌else◌, ℤ, pos, is_positive, is_negative,
}
use store_order.Runtime.{Runtime}
use store_order.Schema.{
  OrderStatus, pending_payment, paid, processing, shipped, cancelled, OrderSet, set_status,
  set_user_email, set_shipping_fee, set_shipping_address, set_payment_type,
  set_midtrans_transaction_id, set_snap_token, set_snap_redirect_url, set_courier_name,
  set_receipt_number, set_paid_at, set_expires_at, same_status,
}
use store_order.Prisma.{
  NewOrderItem, NewOutboxEvent, OrderWhere, user_id_equals, status_equals, order_number_contains,
  Page, OrderQuery,
}
use store_order.Repository.{
  OrderItemInput, OrderCreateInput, OutboxCreateInput, PaymentMetadata, ShippingMetadata,
  OrderFilter,
}

-- `if c { params = append(params, p) }`
abbrev pub when : Bool → OrderSet → List OrderSet
when true p = p ∷ []
when false p = []

-- `if s != "" { params = append(params, column.Set(s)) }`
abbrev pub when_text : (String → OrderSet) → String → List OrderSet
when_text column s = when (not (is_empty s)) (column s)

unfoldable pub optional_params : Runtime → OrderCreateInput → List OrderSet
optional_params rt input =
    when (rt.is_above_zero input.shipping_fee) (set_shipping_fee input.shipping_fee)
    ++ (when_text set_shipping_address input.shipping_address
        ++ (when (not (nat_eq input.expires_at 0)) (set_expires_at input.expires_at)
            ++ (when_text set_snap_token input.snap_token
                ++ (when_text set_snap_redirect_url input.snap_redirect_url
                    ++ (when_text set_courier_name input.courier_name
                        ++ when_text set_receipt_number input.receipt_number)))))

abbrev pub new_item : String → OrderItemInput → NewOrderItem
new_item order_id item = record {
  order_id = order_id;
  product_id = item.product_id;
  variant_id = item.variant_id;
  product_name = item.product_name;
  sku = item.sku;
  price = item.price;
  quantity = item.quantity;
  subtotal = item.subtotal;
  variant_name = item.variant_name;
}

-- the event that is stored for the order `id`
abbrev pub new_event : String → OutboxCreateInput → NewOutboxEvent
new_event id outbox = record {
  aggregate_id = id;
  topic = outbox.topic;
  payload = outbox.payload;
  aggregate_type = outbox.aggregate_type;
}

abbrev pub default_type : OutboxCreateInput → OutboxCreateInput
default_type outbox =
    if is_empty outbox.aggregate_type then record outbox { aggregate_type = "ORDER" } else outbox

abbrev pub meta_params : Option PaymentMetadata → List OrderSet
meta_params none = []
meta_params (some meta) =
    when_text set_payment_type meta.payment_type
    ++ (when_text set_midtrans_transaction_id meta.midtrans_transaction_id
        ++ elim meta.paid_at [ none ↦ [] | some t ↦ set_paid_at t ∷ [] ])

abbrev pub shipping_params : Option ShippingMetadata → List OrderSet
shipping_params none = []
shipping_params (some shipping) =
    when_text set_courier_name shipping.courier_name
    ++ when_text set_receipt_number shipping.receipt_number

-- what `UpdateOrderStatusWithOutbox` assigns
abbrev pub update_params :
    OrderStatus → Option PaymentMetadata → Option ShippingMetadata → List OrderSet
update_params status meta shipping =
    set_status status ∷ (meta_params meta ++ shipping_params shipping)

abbrev pub anonymize_params : String → OrderStatus → List OrderSet
anonymize_params email status =
    set_user_email email
    ∷ set_shipping_address "[ANONYMIZED]"
    ∷ set_snap_token ""
    ∷ set_snap_redirect_url ""
    ∷ when (same_status status pending_payment) (set_status cancelled)

abbrev pub cancel_params : List OrderSet
cancel_params = set_status cancelled ∷ set_snap_token "" ∷ set_snap_redirect_url "" ∷ []

abbrev or_default : ℤ → ℤ
or_default limit = if is_positive limit then limit else pos 20

abbrev or_zero : ℤ → ℤ
or_zero offset = if is_negative offset then pos 0 else offset

abbrev pub page_of : ℤ → ℤ → Page
page_of limit offset = record { take = or_default limit; skip = or_zero offset }

abbrev pub all_where : List OrderWhere → OrderQuery
all_where filters = record {
  filters = filters;
  with_items = false;
  newest_first = false;
  page = none;
}

abbrev pub page_where : List OrderWhere → ℤ → ℤ → OrderQuery
page_where filters limit offset = record {
  filters = filters;
  with_items = true;
  newest_first = true;
  page = some (page_of limit offset);
}

abbrev pub active_statuses : List OrderStatus
active_statuses = pending_payment ∷ paid ∷ processing ∷ shipped ∷ []

abbrev where_text : (String → OrderWhere) → String → List OrderWhere
where_text condition s = if is_empty s then [] else condition s ∷ []

abbrev pub filter_conditions : OrderFilter → List OrderWhere
filter_conditions filter =
    where_text user_id_equals filter.user_id
    ++ (elim filter.status [ none ↦ [] | some st ↦ status_equals st ∷ [] ]
        ++ where_text order_number_contains filter.search)
