-- ===== src/Service/Customer/Cancel.antt =====
-- When CancelCustomerOrder of order_service.go cancels, and what it then changes.
use store_order.Base.{
  String, ◌≡◌, ◌∙◌, ap, Option, none, some, [], ◌∷◌, ◌⊎◌, ok, continue-ok, arith, eq_iff,
}
use store_order.Schema.{Time, OrderModel, pending_payment, cancelled, set_status}
use store_order.Runtime.{Runtime, Draw}
use store_order.Prisma.{Prisma}
use store_order.Prisma.Tables.{PrismaLaws, change_order, stamped, add_events}
use store_order.Repository.Orders.{new_event}
use store_order.Repository.Orders.Update.{Appended, update-done}
use store_order.Service.Response.{OrderResponse}
use store_order.Service.Customer.Lookup.{with_order-ok}
use store_order.Service.Customer.{
  cancel_outbox, check_cancellable, cancel_found, cancel_customer_order,
}

-- The caller may cancel the order: it is theirs, or the call names no user, as the simulation does.
abbrev pub MayCancel : String → OrderModel → Type 0
MayCancel user o = (user ≡ "") ⊎ (o.user_id ≡ user)

module _ (p : Prisma) (rt : Runtime) where
  check_cancellable-ok :
      (user : String) (o : OrderModel) (s : p.State)
      → (check_cancellable p rt user o s).0 ≡ ok tt
      → MayCancel user o × (o.status ≡ pending_payment) × ((check_cancellable p rt user o s).1 ≡ s)
  unfolding check_cancellable
  check_cancellable-ok user o s h = ground (arith, eq_iff o.user_id user)

  module _ (l : PrismaLaws p) (draw : Draw) (user id : String) where
    open l use {tables}

    -- what a cancellation of the order `o` did between `s` and `s'`
    abbrev pub Cancelled : OrderModel → p.State → p.State → Type 0
    Cancelled o s s' =
        MayCancel user o
        × (o.status ≡ pending_payment)
        × ((now : Time) × Appended (new_event id (cancel_outbox rt draw o) ∷ [])
              (change_order id (stamped (set_status cancelled ∷ []) now) (tables s)) (tables s'))

    pub cancel_found-done :
        (o : OrderModel) (s : p.State) {r : Option OrderResponse}
        → (cancel_found p rt draw user id o s).0 ≡ ok r
        → Cancelled o s (cancel_found p rt draw user id o s).1
    unfolding cancel_found
    cancel_found-done o s h =
        let (_, checked, h, same) = continue-ok _ _ _ h in
        let (may, unpaid, still) = check_cancellable-ok user o s checked in
        let (r, updated, _, same') = continue-ok _ _ _ h in
        let (now, (es, from, effect)) = update-done p l id cancelled none none _ _ updated in
        (
          may,
          unpaid,
          (
            now,
            (
              es,
              from,
              ap tables (same ∙ same')
                  ∙ effect
                  ∙ ap
                      (λ s.
                        add_events es
                          (change_order id (stamped (set_status cancelled ∷ []) now) (tables s)))
                      still,
            ),
          ),
        )

    -- A cancellation that returns no error was of an unpaid order that the caller may cancel; the
    -- order is now cancelled, no other row has changed, and the outbox has one more event, the
    -- cancellation of this order.
    pub cancel-done :
        (s : p.State) {r : Option OrderResponse}
        → (cancel_customer_order p rt draw user id s).0 ≡ ok r
        → (o : OrderModel) × ((tables s).order id ≡ some o)
          × Cancelled o s (cancel_customer_order p rt draw user id s).1
    unfolding cancel_customer_order
    cancel-done s h =
        let (o, row, (s', kept, h', same)) =
          with_order-ok p l id (cancel_found p rt draw user id) s h in
        let (may, unpaid, (now, (es, from, effect))) = cancel_found-done o s' h' in
        (
          o,
          row,
          (
            may,
            unpaid,
            (
              now,
              (
                es,
                from,
                ap tables same
                    ∙ effect
                    ∙ ap
                        (λ t.
                          add_events es
                            (change_order id (stamped (set_status cancelled ∷ []) now) t))
                        kept,
              ),
            ),
          ),
        )
