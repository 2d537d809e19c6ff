-- ===== src/Service/Checkout/Rows.antt =====
-- The order that Checkout of internal/service/order_service.go is to store, column by column.
use mathlib.Core.List.{append-nil, append_assoc}
use store_order.Base.{
  String, ◌≡◌, ◌≢◌, refl, sym, ◌∙◌, ap, Option, none, some, List, [], ◌∷◌, ◌++◌, Result, ok, err,
  ◌<>◌, ◌+◌, ◌*◌, if◌then◌else◌, nat_eq, not, true, arith,
}
use store_order.Schema.{
  Time, Float64, OrderModel, OrderItemModel, OutboxEventModel, pending_payment, to_millis,
}
use store_order.Runtime.{Runtime, upper_text}
use store_order.Prisma.Tables.{Tables, new_order}
use store_order.Product.{ValidatedItem}
use store_order.Midtrans.{SnapTransactionRequest, SnapResponse}
use store_order.Repository.Orders.Columns.{given, row-optional_params}
use store_order.Repository.Orders.Creation.{IsCreation, AreItemsFrom, with_items, row_input}
use store_order.Service.Events.Telling.{AreTold, asked-AreTold}
use store_order.Service.Checkout.{
  CheckoutRequest, CheckoutDraws, order_input, repo_items, snap_request, generate_order_number,
  created_outbox, created_data, url_of,
}

-- A stored item of the order `id` is the validated one.
pub record IsItemOf (id : String) (vi : ValidatedItem) (item : OrderItemModel) : Type 0 where
  pub order_id : item.order_id ≡ id
  pub product_id : item.product_id ≡ vi.product_id
  pub variant_id : item.variant_id ≡ vi.variant_id
  pub product_name : item.product_name ≡ vi.product_name
  pub variant_name : item.variant_name ≡ some vi.variant_name
  pub sku : item.sku ≡ vi.sku
  pub price : item.price ≡ vi.unit_price
  pub quantity : item.quantity ≡ vi.quantity
  pub subtotal : item.subtotal ≡ vi.subtotal

-- one item for each validated one, in their order
abbrev pub AreItemsOf : String → List ValidatedItem → List OrderItemModel → Type 0
AreItemsOf id [] [] = Unit
AreItemsOf id (vi ∷ vis) (item ∷ items) = IsItemOf id vi item × AreItemsOf id vis items
AreItemsOf id _ _ = ⊥

repo_items-AreItemsOf :
    (id : String) (vis : List ValidatedItem) (items : List OrderItemModel)
    → AreItemsFrom id (repo_items vis) items
    → AreItemsOf id vis items
repo_items-AreItemsOf id [] [] h = h
repo_items-AreItemsOf id [] (item ∷ items) h = h
repo_items-AreItemsOf id (vi ∷ vis) [] h = h
repo_items-AreItemsOf id (vi ∷ vis) (item ∷ items) (h, rest) = (
  record {
    order_id = h.order_id;
    product_id = h.product_id;
    variant_id = h.variant_id;
    product_name = h.product_name;
    variant_name = h.variant_name;
    sku = h.sku;
    price = h.price;
    quantity = h.quantity;
    subtotal = h.subtotal;
  },
  repo_items-AreItemsOf id vis items rest,
)

with_items_row :
    (is xs : List OrderItemModel) (o : OrderModel)
    → with_items is (record o { items = some xs }) ≡ record o { items = some (xs ++ is) }
with_items_row [] xs o =
    ap (λ (ys : List OrderItemModel). record o { items = some ys }) (sym (append-nil xs))
with_items_row (i ∷ is) xs o =
    with_items_row is (xs ++ i ∷ []) o
    ∙ ap (λ (ys : List OrderItemModel). record o { items = some ys }) (append_assoc xs (i ∷ []) is)

-- the date, and six characters drawn at random
abbrev pub number_of : Runtime → CheckoutDraws → String
number_of rt draws = "ORD-" <> rt.date draws.today <> "-" <> upper_text rt draws.suffix

-- a text of the gateway's answer
abbrev pub answered : (SnapResponse → String) → Result SnapResponse → Option String
answered f (ok r) = given (f r) none
answered f (err e) = none

module _ (rt : Runtime) (draws : CheckoutDraws) (user email : String) (req : CheckoutRequest)
    (total : Float64) where
  -- The new row: unpaid, with no payment and no shipment, expiring after 24 hours, and with the link
  -- and the token of the gateway, if it answered.
  abbrev pub placed_row :
      Result SnapResponse → List OrderItemModel → String → Time → Time → OrderModel
  placed_row answer items id created updated = record {
    id = id;
    order_number = number_of rt draws;
    user_id = user;
    user_email = email;
    status = pending_payment;
    total_amount = total;
    shipping_fee = if rt.is_above_zero req.shipping_fee then req.shipping_fee else 0;
    shipping_address = given req.shipping_address none;
    payment_type = none;
    midtrans_transaction_id = none;
    snap_token = answered (λ r. r.token) answer;
    snap_redirect_url = answered (λ r. r.redirect_url) answer;
    courier_name = none;
    receipt_number = none;
    paid_at = none;
    expires_at = some (to_millis (draws.expiry_base + 24 * 3600 * 1_000_000_000));
    created_at = created;
    updated_at = updated;
    items = some items;
  }

  expires : (t : Time) → not (nat_eq (t + 24 * 3600 * 1_000_000_000) 0) ≡ true
  expires t = ground arith

  new_order-placed_row :
      (answer : Result SnapResponse) (id : String) (created updated : Time)
      → new_order
          (row_input rt (order_input rt draws user email req total answer))
          id
          created
          updated
        ≡ placed_row answer [] id created updated
  new_order-placed_row (ok r) id created updated =
      ap (λ (o : OrderModel). record o { updated_at = updated })
        (row-optional_params rt (order_input rt draws user email req total (ok r)) _)
      ∙ rw (expires draws.expiry_base) refl
  new_order-placed_row (err e) id created updated =
      ap (λ (o : OrderModel). record o { updated_at = updated })
        (row-optional_params rt (order_input rt draws user email req total (err e)) _)
      ∙ rw (expires draws.expiry_base) refl

  -- The tables `t'` have one order more than `t`, the placed one, with the items, and one event of it,
  -- order.created; the gateway was asked for a transaction over its total, under its number.
  pub record Places (snap : SnapTransactionRequest → Result SnapResponse) (vis : List ValidatedItem)
      (t t' : Tables) : Type 0 where
    pub id : String
    pub created : Time
    pub updated : Time
    pub items : List OrderItemModel
    pub stored : List OutboxEventModel
    pub request : SnapTransactionRequest
    pub asks_number : request.transaction_details.order_id ≡ number_of rt draws
    pub asks_total : request.transaction_details.gross_amount ≡ total
    pub fresh : t.order id ≡ none
    pub of_validated : AreItemsOf id vis items
    pub row : t'.order id ≡ some (placed_row (snap request) items id created updated)
    pub others : (j : String) → id ≢ j → t'.order j ≡ t.order j
    pub told : AreTold rt id ("order.created" ∷ []) stored
    pub events : t'.events ≡ t.events ++ stored

  pub IsCreation-Places :
      (snap : SnapTransactionRequest → Result SnapResponse) (vis : List ValidatedItem)
      (t t' : Tables)
      → let answer =
          snap
            (snap_request rt (generate_order_number rt draws) email total req.shipping_fee vis) in
        IsCreation rt
          (order_input rt draws user email req total answer)
          (repo_items vis)
          (some (
            created_outbox rt draws
              (created_data rt draws user email req total (url_of answer) vis)))
          t
          t'
        → Places snap vis t t'
  IsCreation-Places snap vis t t' c =
      let request =
        snap_request rt (generate_order_number rt draws) email total req.shipping_fee vis in
      record {
        id = c.order.id;
        created = c.order.created_at;
        updated = c.order.updated_at;
        items = c.items;
        stored = c.stored;
        request = request;
        asks_number = refl;
        asks_total = refl;
        fresh = c.fresh;
        of_validated = repo_items-AreItemsOf c.order.id vis c.items c.from_inputs;
        row =
            c.row
            ∙ ap (λ o. some (with_items c.items o))
                (c.columns
                  ∙ new_order-placed_row (snap request) c.order.id c.order.created_at
                      c.order.updated_at)
            ∙ ap some (
                with_items_row c.items []
                  (placed_row (snap request) [] c.order.id c.order.created_at c.order.updated_at));
        others = c.others;
        told = asked-AreTold rt c.order.id "order.created" _ "" c.stored refl refl c.from_asked;
        events = c.events;
      }
