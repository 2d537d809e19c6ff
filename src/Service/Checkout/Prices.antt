-- ===== src/Service/Checkout/Prices.antt =====
-- Checkout of order_service.go with ValidateItems of internal/integration/product/client.go.
use store_order.Base.{String, ◌≡◌, ◌≢◌, subst, Option, List, [], Result, ok}
use store_order.Runtime.{Runtime}
use store_order.Prisma.{Prisma}
use store_order.Prisma.Tables.{PrismaLaws}
use store_order.Product.{ValidatedItem, HttpClient, validate_items}
use store_order.Product.Pricing.{total_of}
use store_order.Product.Catalogue.{ArePriced, validate_items-ArePriced}
use store_order.Midtrans.{SnapTransactionRequest, SnapResponse}
use store_order.Service.Response.{OrderResponse}
use store_order.Service.Checkout.{CheckoutRequest, CheckoutDraws, checkout}
use store_order.Service.Checkout.Placement.{checkout-Places}
use store_order.Service.Checkout.Rows.{Places}

module _ (p : Prisma) (rt : Runtime) (l : PrismaLaws p) (c : HttpClient)
    (snap : SnapTransactionRequest → Result SnapResponse) (draws : CheckoutDraws)
    (user email : String) (req : CheckoutRequest) (s : p.State) where
  open l use {tables}

  -- What a customer is charged does not come from the request: where a checkout returns no error, the
  -- order that it has stored has an item for each requested one, of an active product and an active
  -- variant, with the price that the product service gives; and its total is the sum of these and of
  -- the shipping fee of the request.
  pub checkout-ArePriced :
      {r : Option OrderResponse}
      → (checkout p rt (validate_items rt c) snap draws user email req s).0 ≡ ok r
      → (vis : List ValidatedItem) × ArePriced rt c req.items vis
        × (req.items ≢ [])
        × Places rt draws user email req
            (rt.add (total_of rt 0 vis) req.shipping_fee)
            snap
            vis
            (tables s)
            (tables (checkout p rt (validate_items rt c) snap draws user email req s).1)
  checkout-ArePriced h =
      let (_, (vis, subtotal, validated, placed)) =
        checkout-Places p rt l (validate_items rt c) snap draws user email req s h in
      let (priced, some_item, sum) = validate_items-ArePriced rt c req.items validated in
      (
        vis,
        priced,
        some_item,
        subst
            (λ total.
              Places rt draws user email req (rt.add total req.shipping_fee) snap vis (tables s)
                (tables (checkout p rt (validate_items rt c) snap draws user email req s).1))
            sum placed,
      )
