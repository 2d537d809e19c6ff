-- ===== src/Service/Simulate/Effects.antt =====
-- What the simulated payment and expiry of order_service.go do to an order.
use store_order.Base.{String, ◌≡◌, refl, Option, none, some, [], ◌∷◌, ok}
use store_order.Schema.{Time, OrderModel, paid, expired}
use store_order.Runtime.{Runtime, Draw}
use store_order.Prisma.{Prisma}
use store_order.Prisma.Tables.{PrismaLaws, change_order}
use store_order.Repository.Orders.{new_event}
use store_order.Repository.Orders.Columns.{moved}
use store_order.Repository.Orders.Update.{Appended}
use store_order.Service.Response.{OrderResponse, response_of}
use store_order.Service.Customer.Lookup.{with_order_update-done}
use store_order.Service.Simulate.{
  simulated_meta, paid_outbox, expired_outbox, pay_found, expire_found, simulate_payment_success,
  simulate_order_expire,
}

module _ (p : Prisma) (rt : Runtime) (l : PrismaLaws p) (draw : Draw) (id : String)
    (s : p.State) where
  open l use {tables}

  -- A simulated payment that returns no error was of a stored order, whatever its status: the order
  -- now is paid, with the simulated payment's data and the time of the call, no other row has changed,
  -- and the outbox has its payment event.
  simulate_payment_success-done :
      (short_id : String) (now : Time) {r : Option OrderResponse}
      → (simulate_payment_success p rt draw short_id now id s).0 ≡ ok r
      → (o : OrderModel) × ((tables s).order id ≡ some o)
        × ((at : Time) × Appended
              (new_event id (paid_outbox rt draw short_id now o) ∷ [])
              (change_order id (moved paid (some (simulated_meta short_id now)) none at) (tables s))
              (tables (simulate_payment_success p rt draw short_id now id s).1))
  unfolding simulate_payment_success pay_found
  simulate_payment_success-done short_id now h =
      with_order_update-done p l id (pay_found p rt draw short_id now id) s (λ o. paid)
        (some (simulated_meta short_id now)) none (λ o. some (paid_outbox rt draw short_id now o))
        (response_of rt) (λ o s. refl) h

  -- The same for a simulated expiry, which gives the order its status alone.
  pub simulate_order_expire-done :
      {r : Option OrderResponse}
      → (simulate_order_expire p rt draw id s).0 ≡ ok r
      → (o : OrderModel) × ((tables s).order id ≡ some o)
        × ((at : Time) × Appended
              (new_event id (expired_outbox rt draw o) ∷ [])
              (change_order id (moved expired none none at) (tables s))
              (tables (simulate_order_expire p rt draw id s).1))
  unfolding simulate_order_expire expire_found
  simulate_order_expire-done h =
      with_order_update-done p l id (expire_found p rt draw id) s (λ o. expired) none none
        (λ o. some (expired_outbox rt draw o)) (response_of rt) (λ o s. refl) h
