-- ===== src/LifeCycle/Interleaving/Races.antt =====
-- What CancelCustomerOrder of internal/service/order_service.go does when the order has changed between
-- its lookup and its update.
use text.Mathlib.TextPositions.{eq_refl}
use store_order.Base.{String, ◌≡◌, refl, ◌∙◌, ap, Option, some, [], ◌∷◌, ok}
use store_order.Schema.{Time, OrderModel, pending_payment, cancelled, set_status}
use store_order.Runtime.{Runtime, Draw}
use store_order.Prisma.{Prisma}
use store_order.Prisma.Tables.{PrismaLaws, Tables, change_order, stamped}
use store_order.Service.Response.{OrderResponse}
use store_order.Service.Customer.{cancel_found}
use store_order.Service.Customer.Cancel.{cancel_found-done}

change_order-same :
    (id : String) (f : OrderModel → OrderModel) (t : Tables) (o : OrderModel)
    → t.order id ≡ some o
    → (change_order id f t).order id ≡ some (f o)
change_order-same id f t o row = rw (eq_refl id, row) refl

module _ (p : Prisma) (rt : Runtime) (l : PrismaLaws p) where
  open l use {tables}

  -- A cancellation that read an unpaid order and returns no error has cancelled the stored order,
  -- whatever has become of it in between, also if it has been paid: nothing but the status, which
  -- is now CANCELLED, and the time of the update differs from the row as it was just before.
  pub cancel_overwrites :
      (draw : Draw) (user id : String) (seen now_stored : OrderModel) (s : p.State)
      {r : Option OrderResponse}
      → (tables s).order id ≡ some now_stored
      → (cancel_found p rt draw user id seen s).0 ≡ ok r
      → (seen.status ≡ pending_payment)
        × ((now : Time) × ((tables (cancel_found p rt draw user id seen s).1).order id
              ≡ some (record now_stored { status = cancelled; updated_at = now })))
  cancel_overwrites draw user id seen now_stored s row h =
      let (may, unpaid, (now, (es, from, effect))) =
        cancel_found-done p rt l draw user id seen s h in
      (
        unpaid,
        (
          now,
          ap (λ (t : Tables). t.order id) effect
              ∙ change_order-same id (stamped (set_status cancelled ∷ []) now) (tables s) now_stored
                  row,
        ),
      )
