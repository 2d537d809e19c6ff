-- ===== src/Repository/Orders/Columns.antt =====
-- What the assignments of internal/repository/order_repository.go make of a row, column by column.
use store_order.Base.{
  String, ◌≡◌, refl, ◌∙◌, ap, Option, none, some, List, [], ◌∷◌, ◌++◌, Bool, true, false, not,
  is_empty, nat_eq, if◌then◌else◌, Bool-cases, inl, inr,
}
use store_order.Schema.{
  Time, Float64, OrderStatus, OrderModel, OrderSet, apply_set, apply_sets, set_shipping_fee,
  set_shipping_address, set_payment_type, set_midtrans_transaction_id, set_snap_token,
  set_snap_redirect_url, set_courier_name, set_receipt_number, set_paid_at, set_expires_at,
  to_millis,
}
use store_order.Runtime.{Runtime}
use store_order.Prisma.Tables.{stamped}
use store_order.Repository.{OrderCreateInput, PaymentMetadata, ShippingMetadata}
use store_order.Repository.Orders.{
  when, when_text, optional_params, meta_params, shipping_params, update_params,
}

-- an optional column for which a text is given, and the empty text leaves what it has
abbrev pub given : String → Option String → Option String
given s old = if is_empty s then old else some s

abbrev pub given_time : Option Time → Option Time → Option Time
given_time none old = old
given_time (some t) old = some (to_millis t)

-- the row with the payment's columns, and with those of the shipping
abbrev pub with_payment : Option PaymentMetadata → OrderModel → OrderModel
with_payment none o = o
with_payment (some meta) o = record o {
  payment_type = given meta.payment_type o.payment_type;
  midtrans_transaction_id = given meta.midtrans_transaction_id o.midtrans_transaction_id;
  paid_at = given_time meta.paid_at o.paid_at;
}

abbrev pub with_shipping : Option ShippingMetadata → OrderModel → OrderModel
with_shipping none o = o
with_shipping (some shipping) o = record o {
  courier_name = given shipping.courier_name o.courier_name;
  receipt_number = given shipping.receipt_number o.receipt_number;
}

-- the row in its new status: nothing else of it changes but these columns and the time of the update
abbrev pub moved :
    OrderStatus → Option PaymentMetadata → Option ShippingMetadata → Time → OrderModel → OrderModel
moved status meta shipping now o = record (with_shipping shipping (with_payment meta o)) {
  status = status;
  updated_at = now;
}

apply_sets-append :
    (xs ys : List OrderSet) (o : OrderModel)
    → apply_sets (xs ++ ys) o ≡ apply_sets ys (apply_sets xs o)
apply_sets-append [] ys o = refl
apply_sets-append (x ∷ xs) ys o = apply_sets-append xs ys (apply_set x o)

-- Assignments that make this of a row.
record Makes (xs : List OrderSet) (f : OrderModel → OrderModel) : Type 0 where
  row : (o : OrderModel) → apply_sets xs o ≡ f o

append-Makes :
    {xs ys : List OrderSet} {f g : OrderModel → OrderModel}
    → Makes xs f
    → Makes ys g
    → Makes (xs ++ ys) (λ o. g (f o))
append-Makes {xs} {ys} {f} {g} h k = record {
  row = λ o. apply_sets-append xs ys o ∙ k.row (apply_sets xs o) ∙ ap g (h.row o);
}

shipping_address-Makes :
    (s : String)
    → Makes
        (when_text set_shipping_address s)
        (λ o. record o { shipping_address = given s o.shipping_address })
shipping_address-Makes s = elim (Bool-cases (is_empty s)) [
  | inl blank ↦ record { row = λ o. rw blank refl }
  | inr text ↦ record { row = λ o. rw text refl }
]

payment_type-Makes :
    (s : String)
    → Makes (when_text set_payment_type s) (λ o. record o { payment_type = given s o.payment_type })
payment_type-Makes s = elim (Bool-cases (is_empty s)) [
  | inl blank ↦ record { row = λ o. rw blank refl }
  | inr text ↦ record { row = λ o. rw text refl }
]

midtrans_transaction_id-Makes :
    (s : String)
    → Makes
        (when_text set_midtrans_transaction_id s)
        (λ o. record o { midtrans_transaction_id = given s o.midtrans_transaction_id })
midtrans_transaction_id-Makes s = elim (Bool-cases (is_empty s)) [
  | inl blank ↦ record { row = λ o. rw blank refl }
  | inr text ↦ record { row = λ o. rw text refl }
]

snap_token-Makes :
    (s : String)
    → Makes (when_text set_snap_token s) (λ o. record o { snap_token = given s o.snap_token })
snap_token-Makes s = elim (Bool-cases (is_empty s)) [
  | inl blank ↦ record { row = λ o. rw blank refl }
  | inr text ↦ record { row = λ o. rw text refl }
]

snap_redirect_url-Makes :
    (s : String)
    → Makes
        (when_text set_snap_redirect_url s)
        (λ o. record o { snap_redirect_url = given s o.snap_redirect_url })
snap_redirect_url-Makes s = elim (Bool-cases (is_empty s)) [
  | inl blank ↦ record { row = λ o. rw blank refl }
  | inr text ↦ record { row = λ o. rw text refl }
]

courier_name-Makes :
    (s : String)
    → Makes (when_text set_courier_name s) (λ o. record o { courier_name = given s o.courier_name })
courier_name-Makes s = elim (Bool-cases (is_empty s)) [
  | inl blank ↦ record { row = λ o. rw blank refl }
  | inr text ↦ record { row = λ o. rw text refl }
]

receipt_number-Makes :
    (s : String)
    → Makes
        (when_text set_receipt_number s)
        (λ o. record o { receipt_number = given s o.receipt_number })
receipt_number-Makes s = elim (Bool-cases (is_empty s)) [
  | inl blank ↦ record { row = λ o. rw blank refl }
  | inr text ↦ record { row = λ o. rw text refl }
]

paid_at-Makes :
    (t : Option Time)
    → Makes
        (elim t [ none ↦ [] | some t ↦ set_paid_at t ∷ [] ])
        (λ o. record o { paid_at = given_time t o.paid_at })
paid_at-Makes none = record { row = λ o. refl }
paid_at-Makes (some t) = record { row = λ o. refl }

meta_params-Makes : (meta : Option PaymentMetadata) → Makes (meta_params meta) (with_payment meta)
meta_params-Makes none = record { row = λ o. refl }
meta_params-Makes (some meta) = append-Makes (payment_type-Makes meta.payment_type) (
    append-Makes (midtrans_transaction_id-Makes meta.midtrans_transaction_id)
      (paid_at-Makes meta.paid_at))

shipping_params-Makes :
    (shipping : Option ShippingMetadata) → Makes (shipping_params shipping) (with_shipping shipping)
shipping_params-Makes none = record { row = λ o. refl }
shipping_params-Makes (some shipping) =
    append-Makes (courier_name-Makes shipping.courier_name)
      (receipt_number-Makes shipping.receipt_number)

-- UpdateOrderStatusWithOutbox moves the row.
pub stamped-moved :
    (status : OrderStatus) (meta : Option PaymentMetadata) (shipping : Option ShippingMetadata)
    (now : Time) (o : OrderModel)
    → stamped (update_params status meta shipping) now o ≡ moved status meta shipping now o
stamped-moved status meta shipping now o =
    ap (λ (x : OrderModel). record x { updated_at = now })
      ((append-Makes (meta_params-Makes meta) (shipping_params-Makes shipping)).row
        (record o { status = status }))
    ∙ last meta shipping
  where
    last :
        (meta : Option PaymentMetadata) (shipping : Option ShippingMetadata)
        → record (with_shipping shipping (with_payment meta (record o { status = status }))) {
          updated_at = now;
        }
          ≡ moved status meta shipping now o
    last none none = refl
    last none (some x) = refl
    last (some m) none = refl
    last (some m) (some x) = refl

shipping_fee-Makes :
    (b : Bool) (fee : Float64)
    → Makes
        (when b (set_shipping_fee fee))
        (λ o. record o { shipping_fee = if b then fee else o.shipping_fee })
shipping_fee-Makes true fee = record { row = λ o. refl }
shipping_fee-Makes false fee = record { row = λ o. refl }

expires_at-Makes :
    (b : Bool) (t : Time)
    → Makes
        (when b (set_expires_at t))
        (λ o. record o { expires_at = if b then some (to_millis t) else o.expires_at })
expires_at-Makes true t = record { row = λ o. refl }
expires_at-Makes false t = record { row = λ o. refl }

-- The optional columns of a new row.
pub row-optional_params :
    (rt : Runtime) (input : OrderCreateInput) (o : OrderModel)
    → apply_sets (optional_params rt input) o ≡ record o {
      shipping_fee =
          if rt.is_above_zero input.shipping_fee then input.shipping_fee else o.shipping_fee;
      shipping_address = given input.shipping_address o.shipping_address;
      expires_at =
          if not (nat_eq input.expires_at 0)
          then some (to_millis input.expires_at)
          else o.expires_at;
      snap_token = given input.snap_token o.snap_token;
      snap_redirect_url = given input.snap_redirect_url o.snap_redirect_url;
      courier_name = given input.courier_name o.courier_name;
      receipt_number = given input.receipt_number o.receipt_number;
    }
unfolding optional_params
row-optional_params rt input =
    let columns =
      append-Makes (shipping_fee-Makes (rt.is_above_zero input.shipping_fee) input.shipping_fee) (
        append-Makes (shipping_address-Makes input.shipping_address) (
          append-Makes (expires_at-Makes (not (nat_eq input.expires_at 0)) input.expires_at) (
            append-Makes (snap_token-Makes input.snap_token) (
              append-Makes (snap_redirect_url-Makes input.snap_redirect_url) (
                append-Makes (courier_name-Makes input.courier_name)
                  (receipt_number-Makes input.receipt_number)))))) in
    columns.row
