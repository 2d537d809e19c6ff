-- ===== src/Service/Checkout/Placement.antt =====
-- What Checkout of order_service.go leaves when it returns an order.
use store_order.Base.{
  String, ◌≡◌, sym, ap, subst, Option, List, Result, ok, false, is_empty, trim_space, continue-ok,
  wrapped-ok, Bool-cases, inl, inr, arith,
}
use store_order.Schema.{Float64}
use store_order.Runtime.{Runtime}
use store_order.Prisma.{Prisma}
use store_order.Prisma.Tables.{PrismaLaws}
use store_order.Product.{ItemOrderRequest, ValidatedItem}
use store_order.Midtrans.{SnapTransactionRequest, SnapResponse}
use store_order.Repository.Orders.Creation.{create-IsCreation}
use store_order.Service.Response.{OrderResponse}
use store_order.Service.Checkout.{CheckoutRequest, CheckoutDraws, repo_items, place_order, checkout}
use store_order.Service.Checkout.Rows.{Places, IsCreation-Places}

module _ (p : Prisma) (rt : Runtime) (l : PrismaLaws p)
    (products : List ItemOrderRequest → Result (List ValidatedItem × Float64))
    (snap : SnapTransactionRequest → Result SnapResponse) (draws : CheckoutDraws)
    (user email : String) (req : CheckoutRequest) (s : p.State) where
  open l use {tables}

  place_order-Places :
      (vis : List ValidatedItem) (subtotal : Float64) {r : Option OrderResponse}
      → (place_order p rt products snap draws user email req (vis, subtotal) s).0 ≡ ok r
      → Places rt draws user email req
          (rt.add subtotal req.shipping_fee)
          snap
          vis
          (tables s)
          (tables (place_order p rt products snap draws user email req (vis, subtotal) s).1)
  unfolding place_order
  place_order-Places vis subtotal h =
      let (r, created, _, same) = continue-ok _ _ _ h in
      let total = rt.add subtotal req.shipping_fee in
      subst (Places rt draws user email req total snap vis (tables s)) (sym (ap tables same)) (
        IsCreation-Places rt draws user email req total snap vis _ _
          (create-IsCreation p l rt _ (repo_items vis) _ s (wrapped-ok _ _ created)))

  -- A checkout that returns no error is of a user who is named and of items that the product service
  -- has validated. It has stored one new order: unpaid, of the user, over the subtotal of the items
  -- and the shipping fee, with the address, an expiry after 24 hours and the number that it was
  -- announced under to the payment gateway; with an item for each validated one, in their order and
  -- with their data; and with one event order.created; and no other row has changed. This is so
  -- also where the payment gateway failed: the order then has no payment link.
  pub checkout-Places :
      {r : Option OrderResponse}
      → (checkout p rt products snap draws user email req s).0 ≡ ok r
      → (is_empty (trim_space user) ≡ false)
        × ((vis : List ValidatedItem) × (subtotal : Float64) × (products req.items
              ≡ ok (vis, subtotal))
            × Places rt draws user email req
                (rt.add subtotal req.shipping_fee)
                snap
                vis
                (tables s)
                (tables (checkout p rt products snap draws user email req s).1))
  unfolding checkout
  checkout-Places h = elim (Bool-cases (is_empty (trim_space user))) [
    | inl blank ↦ absurd (ground arith)
    | inr named ↦
        let ((vis, subtotal), priced, placed, same) = continue-ok _ _ _ (rw named at h) in
        (
          named,
          (
            vis,
            subtotal,
            wrapped-ok _ _ priced,
            rw named (
                subst
                  (Places rt draws user email req (rt.add subtotal req.shipping_fee) snap vis
                    (tables s))
                  (sym (ap tables same)) (place_order-Places vis subtotal placed)),
          ),
        )
  ]
