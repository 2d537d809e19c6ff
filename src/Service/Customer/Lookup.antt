-- ===== src/Service/Customer/Lookup.antt =====
-- The lookup of an order by its id, with which the methods of order_service.go begin.
use store_order.Base.{
  String, ◌≡◌, refl, ◌∙◌, ap, Option, none, some, Result, ok, err, Action, continue-ok, ◌>>=◌, pure,
  sym,
}
use store_order.Schema.{Time, OrderStatus, OrderModel}
use store_order.Prisma.{Prisma, by_id}
use store_order.Prisma.Tables.{PrismaLaws, change_order, add_events}
use store_order.Repository.{OutboxCreateInput, PaymentMetadata, ShippingMetadata}
use store_order.Repository.Orders.Update.{Appended, asked, update-done}
use store_order.Repository.Orders.{get_order_by_id, update_order_status_with_outbox}
use store_order.Repository.Orders.Columns.{moved}
use store_order.Service.Customer.{or_not_found, with_order}

or_not_found-ok :
    {S : Type 0} (r : Result (Option OrderModel)) (s : S) {o : OrderModel}
    → (or_not_found r s).0 ≡ ok o
    → (r ≡ ok (some o)) × ((or_not_found r s).1 ≡ s)
or_not_found-ok (ok (some o)) s h = (cc, refl)
or_not_found-ok (ok none) s h = cc
or_not_found-ok (err e) s h = cc

module _ (p : Prisma) (l : PrismaLaws p) {B : Type 0} (id : String)
    (f : OrderModel → Action p.State B) (s : p.State) where
  open l use {tables}

  -- A call that succeeds has found the row, and goes on with it in a state with the same tables.
  pub with_order-ok :
      {b : B}
      → (with_order p id f s).0 ≡ ok b
      → (o : OrderModel) × ((tables s).order id ≡ some o)
        × ((s' : p.State) × (tables s' ≡ tables s)
            × ((f o s').0 ≡ ok b)
            × ((with_order p id f s).1 ≡ (f o s').1))
  unfolding get_order_by_id
  with_order-ok {b} h =
      let r = (p.find_order (by_id id) s).0 in
      let s' = (p.find_order (by_id id) s).1 in
      let (o, found, h', same) = continue-ok (or_not_found r s').0 f (or_not_found r s').1 h in
      let (read, still) = or_not_found-ok r s' found in
      (
        o,
        l.find_order_by_id id s o read,
        ((or_not_found r s').1, ap tables still ∙ l.find_order_keeps (by_id id) s, h', same),
      )

  -- Where the step is an update of the order's row whose answer is shown, the row is updated and the
  -- outbox entry stored.
  pub with_order_update-done :
      (status : OrderModel → OrderStatus) (meta : Option PaymentMetadata)
      (shipping : Option ShippingMetadata) (outbox : OrderModel → Option OutboxCreateInput)
      (g : Option OrderModel → B)
      → ((o : OrderModel) (s : p.State)
          → f o s
            ≡ (update_order_status_with_outbox p id (status o) meta shipping (outbox o) >>= λ u.
                  pure (g u))
                s)
      → {b : B} → (with_order p id f s).0 ≡ ok b
      → (o : OrderModel) × ((tables s).order id ≡ some o)
        × ((now : Time) × Appended
              (asked id (outbox o))
              (change_order id (moved (status o) meta shipping now) (tables s))
              (tables (with_order p id f s).1))
  with_order_update-done status meta shipping outbox g step h =
      let (o, row, (s', kept, h', same)) = with_order-ok h in
      let (u, updated, _, same') =
        continue-ok _ _ _ (sym (ap (λ (x : Result B × p.State). x.0) (step o s')) ∙ h') in
      let (now, (es, from, effect)) =
        update-done p l id (status o) meta shipping (outbox o) s' updated in
      (
        o,
        row,
        (
          now,
          (
            es,
            from,
            ap tables (same ∙ ap (λ (x : Result B × p.State). x.1) (step o s') ∙ same')
                ∙ effect
                ∙ ap (λ t. add_events es (change_order id (moved (status o) meta shipping now) t))
                    kept,
          ),
        ),
      )
