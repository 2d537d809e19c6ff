-- ===== src/Repository.antt =====
-- internal/repository/models.go, and the repositories over the generated client: Orders is
-- order_repository.go and Outbox is outbox_repository.go.
pub mod Orders
pub mod Outbox
use store_order.Base.{String, Option, ℤ}
use store_order.Schema.{Float64, Time}

pub record OrderItemInput : Type 0 where
  pub product_id : String
  pub variant_id : String
  pub product_name : String
  pub variant_name : String
  pub sku : String
  pub price : Float64
  pub quantity : ℤ
  pub subtotal : Float64

pub record OrderCreateInput : Type 0 where
  pub order_number : String
  pub user_id : String
  pub user_email : String
  pub total_amount : Float64
  pub shipping_fee : Float64
  pub shipping_address : String
  pub snap_token : String
  pub snap_redirect_url : String
  pub courier_name : String
  pub receipt_number : String
  pub expires_at : Time

pub record OutboxCreateInput : Type 0 where
  pub aggregate_type : String
  pub aggregate_id : String
  pub topic : String
  pub payload : String

pub record PaymentMetadata : Type 0 where
  pub payment_type : String
  pub midtrans_transaction_id : String
  pub paid_at : Option Time

pub record ShippingMetadata : Type 0 where
  pub courier_name : String
  pub receipt_number : String

-- `sort_order` is never read.
pub record OrderFilter : Type 0 where
  pub user_id : String
  pub status : Option String
  pub search : String
  pub limit : ℤ
  pub offset : ℤ
  pub sort_order : String
