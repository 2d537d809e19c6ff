-- ===== src/Schema.antt =====
-- The persisted models of prisma/schema.prisma, as the client that is generated from it hands them
-- to Go, and the field assignments (`db.Order.Status.Set(…)`) that a create or an update lists.
-- A float64 is its 64 bits. A time is the number of nanoseconds since year 1, so that 0 is Go's
-- zero time. A nullable column is an `Option`.
use Prim.Native.Nat.{◌%◌}
use store_order.Base.{
  ◌-◌, ℕ, String, Option, some, List, [], ◌∷◌, ℤ, Bool, nat_eq, ◌≡◌, ◌≢◌, refl, sym, ◌∙◌, ap, subst,
  true, false, if◌then◌else◌, arith,
}

abbrev pub Float64 : Type 0
Float64 = ℕ

abbrev pub Time : Type 0
Time = ℕ

pub data OrderStatus : Type 0 where
  pending_payment paid processing shipped completed cancelled expired : OrderStatus

-- string(status)
abbrev pub status_text : OrderStatus → String
status_text pending_payment = "PENDING_PAYMENT"
status_text paid = "PAID"
status_text processing = "PROCESSING"
status_text shipped = "SHIPPED"
status_text completed = "COMPLETED"
status_text cancelled = "CANCELLED"
status_text expired = "EXPIRED"

abbrev rank : OrderStatus → ℕ
rank pending_payment = 0
rank paid = 1
rank processing = 2
rank shipped = 3
rank completed = 4
rank cancelled = 5
rank expired = 6

-- `a == b` on statuses
abbrev pub same_status : OrderStatus → OrderStatus → Bool
same_status a b = nat_eq (rank a) (rank b)

abbrev status_at : ℕ → OrderStatus
status_at n =
    if nat_eq n 0
    then pending_payment
    else if nat_eq n 1
    then paid
    else if nat_eq n 2
    then processing
    else if nat_eq n 3
    then shipped
    else if nat_eq n 4
    then completed
    else if nat_eq n 5
    then cancelled
    else expired

status_at-rank : (a : OrderStatus) → status_at (rank a) ≡ a
status_at-rank pending_payment = refl
status_at-rank paid = refl
status_at-rank processing = refl
status_at-rank shipped = refl
status_at-rank completed = refl
status_at-rank cancelled = refl
status_at-rank expired = refl

nat_eq_sound : (m n : ℕ) → nat_eq m n ≡ true → m ≡ n
nat_eq_sound m n h = ground arith

nat_eq_refl : (m : ℕ) → nat_eq m m ≡ true
nat_eq_refl m = ground arith

pub same_status_sound : (a b : OrderStatus) → same_status a b ≡ true → a ≡ b
same_status_sound a b h =
    let same : rank a ≡ rank b = nat_eq_sound (rank a) (rank b) h in
    sym (status_at-rank a) ∙ ap status_at same ∙ status_at-rank b

pub same_status_refl : (a : OrderStatus) → same_status a a ≡ true
same_status_refl a = nat_eq_refl (rank a)

pub same_status-differs : (a b : OrderStatus) → same_status a b ≡ false → a ≢ b
same_status-differs a b h eq =
    let both : same_status a b ≡ true =
      subst (λ x. same_status a x ≡ true) eq (same_status_refl a) in
    cc

pub data OutboxStatus : Type 0 where
  pending published failed : OutboxStatus

abbrev pub same_outbox_status : OutboxStatus → OutboxStatus → Bool
same_outbox_status pending pending = true
same_outbox_status published published = true
same_outbox_status failed failed = true
same_outbox_status _ _ = false

pub record OrderItemModel : Type 0 where
  pub id : String
  pub order_id : String
  pub product_id : String
  pub variant_id : String
  pub product_name : String
  pub variant_name : Option String
  pub sku : String
  pub price : Float64
  pub quantity : ℤ
  pub subtotal : Float64

-- `items` is the relation: `none` where the query did not fetch it.
pub record OrderModel : Type 0 where
  pub id : String
  pub order_number : String
  pub user_id : String
  pub user_email : String
  pub status : OrderStatus
  pub total_amount : Float64
  pub shipping_fee : Float64
  pub shipping_address : Option String
  pub payment_type : Option String
  pub midtrans_transaction_id : Option String
  pub snap_token : Option String
  pub snap_redirect_url : Option String
  pub courier_name : Option String
  pub receipt_number : Option String
  pub paid_at : Option Time
  pub expires_at : Option Time
  pub created_at : Time
  pub updated_at : Time
  pub items : Option (List OrderItemModel)

pub record OutboxEventModel : Type 0 where
  pub id : String
  pub aggregate_type : String
  pub aggregate_id : String
  pub topic : String
  pub payload : String
  pub status : OutboxStatus
  pub retry_count : ℕ
  pub error_message : Option String
  pub created_at : Time
  pub published_at : Option Time

-- db.OrderSetParam
pub data OrderSet : Type 0 where
  set_status : OrderStatus → OrderSet
  set_user_email : String → OrderSet
  set_shipping_fee : Float64 → OrderSet
  set_shipping_address : String → OrderSet
  set_payment_type : String → OrderSet
  set_midtrans_transaction_id : String → OrderSet
  set_snap_token : String → OrderSet
  set_snap_redirect_url : String → OrderSet
  set_courier_name : String → OrderSet
  set_receipt_number : String → OrderSet
  set_paid_at : Time → OrderSet
  set_expires_at : Time → OrderSet

-- A time as the database client sends it, which writes three digits of the seconds' fraction.
abbrev pub to_millis : Time → Time
to_millis t = t - t % 1_000_000

abbrev pub apply_set : OrderSet → OrderModel → OrderModel
apply_set (set_status v) o = record o { status = v }
apply_set (set_user_email v) o = record o { user_email = v }
apply_set (set_shipping_fee v) o = record o { shipping_fee = v }
apply_set (set_shipping_address v) o = record o { shipping_address = some v }
apply_set (set_payment_type v) o = record o { payment_type = some v }
apply_set (set_midtrans_transaction_id v) o = record o { midtrans_transaction_id = some v }
apply_set (set_snap_token v) o = record o { snap_token = some v }
apply_set (set_snap_redirect_url v) o = record o { snap_redirect_url = some v }
apply_set (set_courier_name v) o = record o { courier_name = some v }
apply_set (set_receipt_number v) o = record o { receipt_number = some v }
apply_set (set_paid_at v) o = record o { paid_at = some (to_millis v) }
apply_set (set_expires_at v) o = record o { expires_at = some (to_millis v) }

-- What a list of assignments makes of a row.
abbrev pub apply_sets : List OrderSet → OrderModel → OrderModel
apply_sets [] o = o
apply_sets (p ∷ ps) o = apply_sets ps (apply_set p o)

-- db.OutboxEventSetParam
pub data OutboxSet : Type 0 where
  set_event_status : OutboxStatus → OutboxSet
  set_published_at : Time → OutboxSet
  set_retry_count : ℕ → OutboxSet
  set_error_message : String → OutboxSet

abbrev pub apply_event_set : OutboxSet → OutboxEventModel → OutboxEventModel
apply_event_set (set_event_status v) e = record e { status = v }
apply_event_set (set_published_at v) e = record e { published_at = some (to_millis v) }
apply_event_set (set_retry_count v) e = record e { retry_count = v }
apply_event_set (set_error_message v) e = record e { error_message = some v }

abbrev pub apply_event_sets : List OutboxSet → OutboxEventModel → OutboxEventModel
apply_event_sets [] e = e
apply_event_sets (p ∷ ps) e = apply_event_sets ps (apply_event_set p e)
