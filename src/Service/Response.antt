-- ===== src/Service/Response.antt =====
-- The client's view of an order in order_service.go. Nullable columns become empty texts.
pub mod Views
use store_order.Base.{String, Option, none, some, List, [], ◌∷◌, ℤ, ℕ}
use store_order.Schema.{Float64, OrderModel, OrderItemModel, status_text}
use store_order.Runtime.{Runtime}

pub record OrderItemResponse : Type 0 where
  pub id : String
  pub product_id : String
  pub variant_id : String
  pub product_name : String
  pub variant_name : String
  pub sku : String
  pub price : Float64
  pub quantity : ℤ
  pub subtotal : Float64

pub record OrderResponse : Type 0 where
  pub id : String
  pub order_number : String
  pub user_id : String
  pub user_email : String
  pub status : String
  pub total_amount : Float64
  pub shipping_fee : Float64
  pub shipping_address : String
  pub payment_type : String
  pub midtrans_transaction_id : String
  pub snap_token : String
  pub snap_redirect_url : String
  pub courier_name : String
  pub receipt_number : String
  pub paid_at : Option String
  pub expires_at : Option String
  pub items : List OrderItemResponse
  pub created_at : String
  pub updated_at : String

pub record OrderListResponse : Type 0 where
  pub orders : List OrderResponse
  pub total : ℕ
  pub limit : ℤ
  pub offset : ℤ

abbrev pub text_or_empty : Option String → String
text_or_empty none = ""
text_or_empty (some t) = t

abbrev item_response : OrderItemModel → OrderItemResponse
item_response item = record {
  id = item.id;
  product_id = item.product_id;
  variant_id = item.variant_id;
  product_name = item.product_name;
  variant_name = text_or_empty item.variant_name;
  sku = item.sku;
  price = item.price;
  quantity = item.quantity;
  subtotal = item.subtotal;
}

abbrev pub item_responses : List OrderItemModel → List OrderItemResponse
item_responses [] = []
item_responses (item ∷ rest) = item_response item ∷ item_responses rest

unfoldable pub to_order_response : Runtime → OrderModel → OrderResponse
to_order_response rt m = record {
  id = m.id;
  order_number = m.order_number;
  user_id = m.user_id;
  user_email = m.user_email;
  status = status_text m.status;
  total_amount = m.total_amount;
  shipping_fee = m.shipping_fee;
  shipping_address = text_or_empty m.shipping_address;
  payment_type = text_or_empty m.payment_type;
  midtrans_transaction_id = text_or_empty m.midtrans_transaction_id;
  snap_token = text_or_empty m.snap_token;
  snap_redirect_url = text_or_empty m.snap_redirect_url;
  courier_name = text_or_empty m.courier_name;
  receipt_number = text_or_empty m.receipt_number;
  paid_at = elim m.paid_at [ none ↦ none | some t ↦ some (rt.rfc3339 t) ];
  expires_at = elim m.expires_at [ none ↦ none | some t ↦ some (rt.rfc3339 t) ];
  items = elim m.items [ none ↦ [] | some is ↦ item_responses is ];
  created_at = rt.rfc3339 m.created_at;
  updated_at = rt.rfc3339 m.updated_at;
}

-- `ToOrderResponse`, nil for nil
abbrev pub response_of : Runtime → Option OrderModel → Option OrderResponse
response_of rt none = none
response_of rt (some m) = some (to_order_response rt m)

abbrev pub order_responses : Runtime → List OrderModel → List OrderResponse
order_responses rt [] = []
order_responses rt (o ∷ os) = to_order_response rt o ∷ order_responses rt os
