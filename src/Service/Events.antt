-- ===== src/Service/Events.antt =====
-- The domain events of order_service.go: topics, event types, envelopes, the data of an order and the
-- outbox entry that carries them.
pub mod Telling
use store_order.Base.{
  String, Option, none, some, List, [], ◌∷◌, is_empty, if◌then◌else◌, put, Result, ok, err,
}
use store_order.Schema.{Time, OrderModel, OrderItemModel, status_text}
use store_order.Runtime.{
  text, float, int, ItemMap, Value, scalar, items, EventData, DomainEventEnvelope, Draw, Runtime,
}
use store_order.Repository.{OutboxCreateInput}

abbrev pub topic_order_events : String
topic_order_events = "order.events"

abbrev pub event_type_order_created : String
event_type_order_created = "order.created"

abbrev pub event_type_order_paid : String
event_type_order_paid = "order.paid"

abbrev pub event_type_order_shipped : String
event_type_order_shipped = "order.fulfilled"

abbrev pub event_type_order_cancelled : String
event_type_order_cancelled = "order.cancelled"

abbrev pub event_type_order_expired : String
event_type_order_expired = "order.expired"

abbrev pub str : String → Value
str s = scalar (text s)

-- NewDomainEventEnvelope
abbrev pub new_domain_event_envelope : Runtime → Draw → String → EventData → DomainEventEnvelope
new_domain_event_envelope rt draw event_type payload = record {
  event_id = draw.uuid;
  event_type = event_type;
  timestamp = rt.rfc3339_utc draw.now;
  producer = "store_order";
  payload = payload;
}

-- `payload, _ := json.Marshal(…)`, then `string(payload)`
abbrev pub or_empty : Result String → String
or_empty (ok s) = s
or_empty (err e) = ""

-- the outbox entry of an envelope for an order
abbrev pub order_outbox : Runtime → String → DomainEventEnvelope → OutboxCreateInput
order_outbox rt id envelope = record {
  aggregate_type = "ORDER";
  aggregate_id = id;
  topic = topic_order_events;
  payload = or_empty (rt.marshal envelope);
}

-- `if v, ok := o.Field(); ok && v != "" { data[key] = v }`
abbrev pub put_text : String → Option String → EventData → EventData
put_text key none data' = data'
put_text key (some v) data' = if is_empty v then data' else put key (str v) data'

abbrev with_variant_name : Option String → ItemMap → ItemMap
with_variant_name none m = m
with_variant_name (some v) m =
    if is_empty v then m else put "variant_name" (text v) (put "variantName" (text v) m)

abbrev pub item_map : OrderItemModel → ItemMap
item_map item = with_variant_name item.variant_name (
    ("id", text item.id)
    ∷ ("productId", text item.product_id)
    ∷ ("product_id", text item.product_id)
    ∷ ("variantId", text item.variant_id)
    ∷ ("variant_id", text item.variant_id)
    ∷ ("productName", text item.product_name)
    ∷ ("sku", text item.sku)
    ∷ ("price", float item.price)
    ∷ ("quantity", int item.quantity)
    ∷ ("subtotal", float item.subtotal)
    ∷ [])

abbrev pub item_maps : List OrderItemModel → List ItemMap
item_maps [] = []
item_maps (item ∷ rest) = item_map item ∷ item_maps rest

abbrev fetched_items : Option (List OrderItemModel) → List ItemMap
fetched_items none = []
fetched_items (some is) = item_maps is

abbrev base_data : Runtime → OrderModel → EventData
base_data rt order =
    ("id", str order.id)
    ∷ ("order_id", str order.id)
    ∷ ("orderNumber", str order.order_number)
    ∷ ("order_number", str order.order_number)
    ∷ ("userId", str order.user_id)
    ∷ ("user_id", str order.user_id)
    ∷ ("userEmail", str order.user_email)
    ∷ ("user_email", str order.user_email)
    ∷ ("status", str (status_text order.status))
    ∷ ("totalAmount", scalar (float order.total_amount))
    ∷ ("total_amount", scalar (float order.total_amount))
    ∷ ("shippingFee", scalar (float order.shipping_fee))
    ∷ ("shipping_fee", scalar (float order.shipping_fee))
    ∷ ("createdAt", str (rt.rfc3339_utc order.created_at))
    ∷ ("created_at", str (rt.rfc3339_utc order.created_at))
    ∷ ("items", items (fetched_items order.items))
    ∷ []

abbrev put_time : Runtime → Option Time → EventData → EventData
put_time rt none d = d
put_time rt (some t) d = put "paidAt" (str (rt.rfc3339_utc t)) d

-- `data` on an order; its nil case does not arise from the callers
unfoldable pub build_order_event_data : Runtime → OrderModel → String → EventData
build_order_event_data rt order reason =
    let d = base_data rt order in
    let d = put_text "shippingAddress" order.shipping_address d in
    let d = put_text "paymentType" order.payment_type d in
    let d = put_text "snapRedirectUrl" order.snap_redirect_url d in
    let d = put_text "courierName" order.courier_name d in
    let d = put_text "receiptNumber" order.receipt_number d in
    let d = put_time rt order.paid_at d in
    if is_empty reason then d else put "reason" (str reason) d
