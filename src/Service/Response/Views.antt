-- ===== src/Service/Response/Views.antt =====
-- What the responses of ToOrderResponse in internal/service/order_service.go show of the stored rows.
use store_order.Base.{String, ◌≡◌, refl, Option, none, some, List, [], ◌∷◌}
use store_order.Schema.{Time, OrderModel, OrderItemModel, status_text}
use store_order.Runtime.{Runtime}
use store_order.Service.Response.{
  OrderItemResponse, OrderResponse, item_responses, to_order_response, order_responses,
  text_or_empty,
}

-- A text shows a column, the empty text a missing one.
abbrev pub ShowsText : Option String → String → Type 0
ShowsText none s = s ≡ ""
ShowsText (some t) s = s ≡ t

abbrev pub ShowsTime : Runtime → Option Time → Option String → Type 0
ShowsTime rt none s = s ≡ none
ShowsTime rt (some t) s = s ≡ some (rt.rfc3339 t)

pub record ShowsItem (item : OrderItemModel) (r : OrderItemResponse) : Type 0 where
  pub id : r.id ≡ item.id
  pub product_id : r.product_id ≡ item.product_id
  pub variant_id : r.variant_id ≡ item.variant_id
  pub product_name : r.product_name ≡ item.product_name
  pub variant_name : ShowsText item.variant_name r.variant_name
  pub sku : r.sku ≡ item.sku
  pub price : r.price ≡ item.price
  pub quantity : r.quantity ≡ item.quantity
  pub subtotal : r.subtotal ≡ item.subtotal

abbrev pub ShowItems : List OrderItemModel → List OrderItemResponse → Type 0
ShowItems [] [] = Unit
ShowItems (item ∷ items) (r ∷ rs) = ShowsItem item r × ShowItems items rs
ShowItems _ _ = ⊥

abbrev pub ShowsFetched : Option (List OrderItemModel) → List OrderItemResponse → Type 0
ShowsFetched none rs = rs ≡ []
ShowsFetched (some items) rs = ShowItems items rs

-- A response shows a row, column by column, and its items.
pub record Shows (rt : Runtime) (o : OrderModel) (r : OrderResponse) : Type 0 where
  pub id : r.id ≡ o.id
  pub order_number : r.order_number ≡ o.order_number
  pub user_id : r.user_id ≡ o.user_id
  pub user_email : r.user_email ≡ o.user_email
  pub status : r.status ≡ status_text o.status
  pub total_amount : r.total_amount ≡ o.total_amount
  pub shipping_fee : r.shipping_fee ≡ o.shipping_fee
  pub shipping_address : ShowsText o.shipping_address r.shipping_address
  pub payment_type : ShowsText o.payment_type r.payment_type
  pub midtrans_transaction_id : ShowsText o.midtrans_transaction_id r.midtrans_transaction_id
  pub snap_token : ShowsText o.snap_token r.snap_token
  pub snap_redirect_url : ShowsText o.snap_redirect_url r.snap_redirect_url
  pub courier_name : ShowsText o.courier_name r.courier_name
  pub receipt_number : ShowsText o.receipt_number r.receipt_number
  pub paid_at : ShowsTime rt o.paid_at r.paid_at
  pub expires_at : ShowsTime rt o.expires_at r.expires_at
  pub items : ShowsFetched o.items r.items
  pub created_at : r.created_at ≡ rt.rfc3339 o.created_at
  pub updated_at : r.updated_at ≡ rt.rfc3339 o.updated_at

-- the responses of a list of rows, in its order
abbrev pub ShowAll : Runtime → List OrderModel → List OrderResponse → Type 0
ShowAll rt [] [] = Unit
ShowAll rt (o ∷ os) (r ∷ rs) = Shows rt o r × ShowAll rt os rs
ShowAll rt _ _ = ⊥

text_or_empty-ShowsText : (t : Option String) → ShowsText t (text_or_empty t)
text_or_empty-ShowsText none = refl
text_or_empty-ShowsText (some t) = refl

time-ShowsTime :
    (rt : Runtime) (t : Option Time)
    → ShowsTime rt t (elim t [ none ↦ none | some t ↦ some (rt.rfc3339 t) ])
time-ShowsTime rt none = refl
time-ShowsTime rt (some t) = refl

item_responses-ShowItems : (items : List OrderItemModel) → ShowItems items (item_responses items)
item_responses-ShowItems [] = tt
item_responses-ShowItems (item ∷ items) = (
  record {
    id = refl;
    product_id = refl;
    variant_id = refl;
    product_name = refl;
    variant_name = text_or_empty-ShowsText item.variant_name;
    sku = refl;
    price = refl;
    quantity = refl;
    subtotal = refl;
  },
  item_responses-ShowItems items,
)

fetched-ShowsFetched :
    (items : Option (List OrderItemModel))
    → ShowsFetched items (elim items [ none ↦ [] | some is ↦ item_responses is ])
fetched-ShowsFetched none = refl
fetched-ShowsFetched (some items) = item_responses-ShowItems items

pub to_order_response-Shows : (rt : Runtime) (o : OrderModel) → Shows rt o (to_order_response rt o)
unfolding to_order_response
to_order_response-Shows rt o = record {
  id = refl;
  order_number = refl;
  user_id = refl;
  user_email = refl;
  status = refl;
  total_amount = refl;
  shipping_fee = refl;
  shipping_address = text_or_empty-ShowsText o.shipping_address;
  payment_type = text_or_empty-ShowsText o.payment_type;
  midtrans_transaction_id = text_or_empty-ShowsText o.midtrans_transaction_id;
  snap_token = text_or_empty-ShowsText o.snap_token;
  snap_redirect_url = text_or_empty-ShowsText o.snap_redirect_url;
  courier_name = text_or_empty-ShowsText o.courier_name;
  receipt_number = text_or_empty-ShowsText o.receipt_number;
  paid_at = time-ShowsTime rt o.paid_at;
  expires_at = time-ShowsTime rt o.expires_at;
  items = fetched-ShowsFetched o.items;
  created_at = refl;
  updated_at = refl;
}

pub order_responses-ShowAll :
    (rt : Runtime) (os : List OrderModel) → ShowAll rt os (order_responses rt os)
order_responses-ShowAll rt [] = tt
order_responses-ShowAll rt (o ∷ os) = (to_order_response-Shows rt o, order_responses-ShowAll rt os)
