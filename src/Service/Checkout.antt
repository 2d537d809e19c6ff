-- ===== src/Service/Checkout.antt =====
-- Checkout of order_service.go. The pricing of the items and the payment gateway are the clients of
-- internal/integration; what the call reads from the clock and draws at random is its argument.
pub mod Rows
pub mod Placement
pub mod Prices
use store_order.Base.{
  String, Option, some, List, [], ◌∷◌, ◌++◌, is_empty, if◌then◌else◌, Result, ok, err, ◌+◌, ◌*◌,
  pos, Action, pure, raise, lift, wrap, ◌>>=◌, ◌<>◌, trim_space, put, wrapped,
}
use store_order.Schema.{Float64, Time, pending_payment, status_text}
use store_order.Runtime.{
  Runtime, Draw, text, float, int, ItemMap, scalar, items, EventData, upper_text,
}
use store_order.Prisma.{Prisma}
use store_order.Repository.{OrderItemInput, OrderCreateInput, OutboxCreateInput}
use store_order.Repository.Orders.{create_order_with_items_and_outbox}
use store_order.Product.{ItemOrderRequest, ValidatedItem}
use store_order.Midtrans.{ItemDetail, SnapTransactionRequest, SnapResponse}
use store_order.Service.Events.{
  new_domain_event_envelope, or_empty, event_type_order_created, topic_order_events, str,
}
use store_order.Service.Response.{OrderResponse, response_of}

pub record CheckoutRequest : Type 0 where
  pub items : List ItemOrderRequest
  pub shipping_fee : Float64
  pub shipping_address : String

-- the readings of one checkout: the order number's date and random suffix, the time from which the
-- order's expiry counts, the time that the event carries, and the envelope's draw
pub record CheckoutDraws : Type 0 where
  pub today : Time
  pub suffix : String
  pub expiry_base : Time
  pub event_time : Time
  pub envelope : Draw

-- generateOrderNumber; `suffix` is the first six characters of a new UUID
abbrev pub generate_order_number : Runtime → CheckoutDraws → String
generate_order_number rt draws = "ORD-" <> rt.date draws.today <> "-" <> upper_text rt draws.suffix

-- 24 * time.Hour
abbrev pub day : Time
day = 24 * 3600 * 1_000_000_000

abbrev repo_item : ValidatedItem → OrderItemInput
repo_item vi = record {
  product_id = vi.product_id;
  variant_id = vi.variant_id;
  product_name = vi.product_name;
  variant_name = vi.variant_name;
  sku = vi.sku;
  price = vi.unit_price;
  quantity = vi.quantity;
  subtotal = vi.subtotal;
}

abbrev snap_item : ValidatedItem → ItemDetail
snap_item vi = record {
  id = vi.sku;
  price = vi.unit_price;
  quantity = vi.quantity;
  name = vi.product_name;
}

abbrev event_item : ValidatedItem → ItemMap
event_item vi =
    let m : ItemMap =
      ("id", text vi.product_id)
      ∷ ("productId", text vi.product_id)
      ∷ ("product_id", text vi.product_id)
      ∷ ("variantId", text vi.variant_id)
      ∷ ("variant_id", text vi.variant_id)
      ∷ ("productName", text vi.product_name)
      ∷ ("sku", text vi.sku)
      ∷ ("price", float vi.unit_price)
      ∷ ("quantity", int vi.quantity)
      ∷ ("subtotal", float vi.subtotal)
      ∷ [] in
    if is_empty vi.variant_name
    then m
    else put "variant_name" (text vi.variant_name) (put "variantName" (text vi.variant_name) m)

abbrev pub repo_items : List ValidatedItem → List OrderItemInput
repo_items [] = []
repo_items (vi ∷ vis) = repo_item vi ∷ repo_items vis

abbrev pub snap_items : List ValidatedItem → List ItemDetail
snap_items [] = []
snap_items (vi ∷ vis) = snap_item vi ∷ snap_items vis

abbrev pub event_items : List ValidatedItem → List ItemMap
event_items [] = []
event_items (vi ∷ vis) = event_item vi ∷ event_items vis

abbrev shipping_detail : Runtime → Float64 → List ItemDetail
shipping_detail rt fee =
    if rt.is_above_zero fee
    then record { id = "SHIPPING"; price = fee; quantity = pos 1; name = "Shipping Fee" } ∷ []
    else []

abbrev pub snap_request :
    Runtime → String → String → Float64 → Float64 → List ValidatedItem → SnapTransactionRequest
snap_request rt order_number user_email total fee vis = record {
  transaction_details = record { order_id = order_number; gross_amount = total };
  customer_details = record { first_name = user_email; email = user_email };
  item_details = snap_items vis ++ shipping_detail rt fee;
}

-- token and URL, empty where the gateway failed
abbrev pub token_of : Result SnapResponse → String
token_of (ok r) = r.token
token_of (err e) = ""

abbrev pub url_of : Result SnapResponse → String
url_of (ok r) = r.redirect_url
url_of (err e) = ""

abbrev pub created_data :
    Runtime
    → CheckoutDraws
    → String
    → String
    → CheckoutRequest
    → Float64
    → String
    → List ValidatedItem
    → EventData
created_data rt draws user_id user_email req total url vis =
    let number = generate_order_number rt draws in
    ("id", str number)
    ∷ ("order_id", str number)
    ∷ ("orderNumber", str number)
    ∷ ("order_number", str number)
    ∷ ("userId", str user_id)
    ∷ ("user_id", str user_id)
    ∷ ("userEmail", str user_email)
    ∷ ("user_email", str user_email)
    ∷ ("status", str (status_text pending_payment))
    ∷ ("totalAmount", scalar (float total))
    ∷ ("total_amount", scalar (float total))
    ∷ ("shippingFee", scalar (float req.shipping_fee))
    ∷ ("shipping_fee", scalar (float req.shipping_fee))
    ∷ ("shippingAddress", str req.shipping_address)
    ∷ ("shipping_address", str req.shipping_address)
    ∷ ("snapRedirectUrl", str url)
    ∷ ("snap_redirect_url", str url)
    ∷ ("createdAt", str (rt.rfc3339_utc draws.event_time))
    ∷ ("created_at", str (rt.rfc3339_utc draws.event_time))
    ∷ ("expiresAt", str (rt.rfc3339_utc (draws.expiry_base + day)))
    ∷ ("expires_at", str (rt.rfc3339_utc (draws.expiry_base + day)))
    ∷ ("items", items (event_items vis))
    ∷ []

abbrev pub order_input :
    Runtime
    → CheckoutDraws
    → String
    → String
    → CheckoutRequest
    → Float64
    → Result SnapResponse
    → OrderCreateInput
order_input rt draws user_id user_email req total snap = record {
  order_number = generate_order_number rt draws;
  user_id = user_id;
  user_email = user_email;
  total_amount = total;
  shipping_fee = req.shipping_fee;
  shipping_address = req.shipping_address;
  snap_token = token_of snap;
  snap_redirect_url = url_of snap;
  courier_name = "";
  receipt_number = "";
  expires_at = draws.expiry_base + day;
}

abbrev pub created_outbox : Runtime → CheckoutDraws → EventData → OutboxCreateInput
created_outbox rt draws payload = record {
  aggregate_type = "ORDER";
  aggregate_id = "";
  topic = topic_order_events;
  payload =
      or_empty
        (rt.marshal (new_domain_event_envelope rt draws.envelope event_type_order_created payload));
}

-- `products` is `productClient.ValidateItems`, `snap` is `midtransClient.CreateSnapTransaction`
module _ (p : Prisma) (rt : Runtime)
    (products : List ItemOrderRequest → Result (List ValidatedItem × Float64))
    (snap : SnapTransactionRequest → Result SnapResponse) where
  open p use {State}

  -- the part below the pricing of the items
  unfoldable pub place_order :
      CheckoutDraws
      → String
      → String
      → CheckoutRequest
      → List ValidatedItem × Float64
      → Action State (Option OrderResponse)
  place_order draws user_id user_email req (vis, subtotal) = do
    let total = rt.add subtotal req.shipping_fee
    let number = generate_order_number rt draws
    let answer = snap (snap_request rt number user_email total req.shipping_fee vis)
    created ← wrap "failed to save order" (
        create_order_with_items_and_outbox p rt
          (order_input rt draws user_id user_email req total answer) (repo_items vis)
          (some (
            created_outbox rt draws
              (created_data rt draws user_id user_email req total (url_of answer) vis))))
    pure (response_of rt created)

  unfoldable pub checkout :
      CheckoutDraws → String → String → CheckoutRequest → Action State (Option OrderResponse)
  unfolding place_order
  checkout draws user_id user_email req =
      if is_empty (trim_space user_id) then raise "authenticated user ID is required" else do
        validated ← lift (wrapped "item validation failed" (products req.items))
        place_order draws user_id user_email req validated
