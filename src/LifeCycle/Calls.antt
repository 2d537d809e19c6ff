-- ===== src/LifeCycle/Calls.antt =====
-- Each method of internal/service/order_service.go keeps to what its call permits, on every path.
use store_order.Base.{
  ◌>>=◌, pure, not, ◌&&◌, ◌==◌, String, ◌≡◌, refl, sym, ◌∙◌, ap, subst, Option, none, some, List,
  Result, inl, inr, ◌⊎◌, true, Bool-cases, Action, is_empty,
}
use store_order.Schema.{
  Float64, OrderStatus, pending_payment, cancelled, OrderModel, same_status, same_status_sound,
}
use store_order.Runtime.{Runtime, Draw}
use store_order.Prisma.{Prisma}
use store_order.Prisma.Tables.{PrismaLaws}
use store_order.Prisma.Changes.{Changes, Changes_refl, continue-Within}
use store_order.Repository.{OutboxCreateInput, PaymentMetadata, ShippingMetadata}
use store_order.Repository.Orders.{update_order_status_with_outbox, update_params}
use store_order.Repository.Orders.Changes.{
  update_order_status-Within, create_order-with_items-Within,
}
use store_order.Repository.Orders.Loops.{some_inj}
use store_order.Product.{ItemOrderRequest, ValidatedItem}
use store_order.Midtrans.{SnapTransactionRequest, SnapResponse}
use store_order.Service.Response.{response_of}
use store_order.Service.Checkout.{CheckoutRequest, CheckoutDraws, checkout}
use store_order.Service.Customer.{
  cancel_outbox, check_cancellable, cancel_found, cancel_customer_order,
}
use store_order.Service.Changes
use store_order.Service.Changes.{with_order-Within, pure-Within}
use store_order.LifeCycle.{move_to, Permit, Permits, nothing, cancel_unpaid}
use store_order.LifeCycle.Rows.{
  Follows, Follows-IsPreorder, stamped-IsSameOrder, with_item-Follows, status-update_params,
}

module _ (p : Prisma) (rt : Runtime) (l : PrismaLaws p) where
  open l use {tables}

  abbrev pub Within : {A : Type 0} → Permit → Action p.State A → p.State → Type 0
  Within q m s = Changes (Follows q) (tables s) (tables (m s).1)

  module _ (q : Permit) where
    abbrev nothing_done : (s : p.State) → Changes (Follows q) (tables s) (tables s)
    nothing_done s = Changes_refl (Follows q) (Follows-IsPreorder q) (tables s)

    -- a change of status and its event
    pub update-Within :
        (id : String) (status : OrderStatus) (meta : Option PaymentMetadata)
        (shipping : Option ShippingMetadata) (outbox : Option OutboxCreateInput) (s : p.State)
        → ((o : OrderModel)
            → (tables s).order id ≡ some o
            → (status ≡ o.status) ⊎ Permits q o.status status)
        → Within q (update_order_status_with_outbox p id status meta shipping outbox) s
    update-Within id status meta shipping outbox s h =
        update_order_status-Within (Follows q) (Follows-IsPreorder q) p l id status meta shipping
          outbox s
          λ o now here. (
            stamped-IsSameOrder (update_params status meta shipping) now o,
            subst (λ st. (st ≡ o.status) ⊎ Permits q o.status st)
                (sym (status-update_params status meta shipping now o)) (h o here),
          )

  cancel_found-Within :
      (draw : Draw) (user id : String) (o : OrderModel) (s : p.State)
      → (tables s).order id ≡ some o
      → Within cancel_unpaid (cancel_found p rt draw user id o) s
  unfolding cancel_found check_cancellable
  cancel_found-Within draw user id o s row =
      elim (Bool-cases (not (is_empty user) && not (o.user_id == user))) [
        | inl other ↦ rw other (nothing_done cancel_unpaid s)
        | inr own ↦ elim (Bool-cases (same_status o.status pending_payment)) [
          | inr moved ↦ rw (own, moved) (nothing_done cancel_unpaid s)
          | inl unpaid ↦
              rw (own, unpaid)
                (pure-Within (Follows cancel_unpaid) (Follows-IsPreorder cancel_unpaid) p l
                  (update_order_status_with_outbox p id cancelled none none
                    (some (cancel_outbox rt draw o)))
                  (response_of rt) s
                  (update-Within cancel_unpaid id cancelled none none
                    (some (cancel_outbox rt draw o)) s
                    λ r here. inr (is_pending r here unpaid, refl)))
        ]
      ]
    where
      is_pending :
          (r : OrderModel)
          → (tables s).order id ≡ some r
          → same_status o.status pending_payment ≡ true
          → r.status ≡ pending_payment
      is_pending r here unpaid =
          ap (λ (x : OrderModel). x.status) (sym (some_inj (sym row ∙ here)))
          ∙ same_status_sound o.status pending_payment unpaid

  -- ... with what was read of the order some time before: whatever its status is by then, it may be
  -- cancelled.
  pub cancel_late-Within :
      (draw : Draw) (user id : String) (o : OrderModel) (s : p.State)
      → Within (move_to cancelled) (cancel_found p rt draw user id o) s
  unfolding cancel_found check_cancellable
  cancel_late-Within draw user id o s =
      let q = move_to cancelled in
      let checked = check_cancellable p rt user o s in
      continue-Within (Follows q) (Follows-IsPreorder q) p l checked.0
        (λ _.
          update_order_status_with_outbox p id cancelled none none (some (cancel_outbox rt draw o))
          >>= λ updated. pure (response_of rt updated))
        s checked.1 (checked-Within user o s)
        λ _ _.
          pure-Within (Follows q) (Follows-IsPreorder q) p l
            (update_order_status_with_outbox p id cancelled none none
              (some (cancel_outbox rt draw o)))
            (response_of rt) checked.1
            (update-Within q id cancelled none none (some (cancel_outbox rt draw o)) checked.1
              λ r here. inr refl)
    where
      checked-Within :
          (user : String) (o : OrderModel) (s : p.State)
          → Within (move_to cancelled) (check_cancellable p rt user o) s
      checked-Within user o s = elim (Bool-cases (not (is_empty user) && not (o.user_id == user))) [
        | inl other ↦ rw (other) (nothing_done (move_to cancelled) s)
        | inr own ↦ elim (Bool-cases (same_status o.status pending_payment)) [
          | inr moved ↦ rw (own, moved) (nothing_done (move_to cancelled) s)
          | inl unpaid ↦ rw (own, unpaid) (nothing_done (move_to cancelled) s)
        ]
      ]

  pub cancel-Within :
      (draw : Draw) (user id : String) (s : p.State)
      → Within cancel_unpaid (cancel_customer_order p rt draw user id) s
  unfolding cancel_customer_order
  cancel-Within draw user id s =
      with_order-Within (Follows cancel_unpaid) (Follows-IsPreorder cancel_unpaid) p l id
        (cancel_found p rt draw user id) s λ o s' row. cancel_found-Within draw user id o s' row

  pub checkout-Within :
      (products : List ItemOrderRequest → Result (List ValidatedItem × Float64))
      (snap : SnapTransactionRequest → Result SnapResponse) (draws : CheckoutDraws)
      (user email : String) (req : CheckoutRequest) (s : p.State)
      → Within nothing (checkout p rt products snap draws user email req) s
  checkout-Within products snap draws user email req =
      Changes.checkout-Within (Follows nothing) (Follows-IsPreorder nothing) p l rt user
        (λ input items outbox s _.
          create_order-with_items-Within (Follows nothing) (Follows-IsPreorder nothing) p l
            (with_item-Follows nothing) rt input items outbox s)
        products snap draws email req
