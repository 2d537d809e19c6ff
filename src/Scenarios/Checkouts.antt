-- ===== src/Scenarios/Checkouts.antt =====
-- Checkout of internal/service/order_service.go with the products of Products and a payment gateway
-- that is down.
use store_order.Base.{
  ◌≢◌, ◌≡◌, refl, List, [], ◌∷◌, Result, ok, err, false, is_empty, trim_space, lookup, put,
  to_upper,
}
use store_order.Schema.{Float64}
use store_order.Prisma.Memory.{memory, steps}
use store_order.Prisma.Memory.Rows.{tables}
use store_order.Prisma.Memory.Laws.{memory_laws}
use store_order.Product.{
  ItemOrderRequest, ValidatedItem, validate_items, validate_from, cached_product, fetch_active,
  get_product_by_id, price_item, find_variant,
}
use store_order.Midtrans.{SnapTransactionRequest, SnapResponse}
use store_order.Repository.Orders.{
  create_order_with_items_and_outbox, insert_items, insert_outbox, get_order_by_id, optional_params,
}
use store_order.Service.Checkout.{CheckoutRequest, CheckoutDraws, place_order, checkout}
use store_order.Service.Checkout.Prices.{checkout-ArePriced}
use store_order.Product.Catalogue.{ArePriced}
use store_order.Product.Pricing.{total_of}
use store_order.Service.Checkout.Placement.{checkout-Places}
use store_order.Service.Checkout.Rows.{Places}
use store_order.Scenarios.Fixtures.{surroundings, draw, shop}
use store_order.Scenarios.Products.{shop_client, one_large}

abbrev order_form : CheckoutRequest
order_form = record { items = one_large ∷ []; shipping_fee = 9; shipping_address = "street" }

abbrev draws : CheckoutDraws
draws = record { today = 1; suffix = "ab12cd"; expiry_base = 1; event_time = 2; envelope = draw }

abbrev no_gateway : SnapTransactionRequest → Result SnapResponse
no_gateway request = err "connection refused"

abbrev products : List ItemOrderRequest → Result (List ValidatedItem × Float64)
products = validate_items surroundings shop_client

checkout-Places_example :
    (is_empty (trim_space "ann") ≡ false)
    × ((vis : List ValidatedItem) × (subtotal : Float64) × (products (one_large ∷ [])
          ≡ ok (vis, subtotal))
        × Places surroundings draws "ann" "mail" order_form
            (surroundings.add subtotal 9)
            no_gateway
            vis
            (tables shop)
            (tables
              (checkout memory surroundings products no_gateway draws "ann" "mail" order_form
                shop).1))
unfolding checkout place_order create_order_with_items_and_outbox insert_items insert_outbox
    get_order_by_id optional_params validate_items validate_from cached_product fetch_active
    get_product_by_id price_item find_variant lookup put trim_space to_upper steps
checkout-Places_example =
    checkout-Places memory surroundings memory_laws products no_gateway draws "ann" "mail"
      order_form shop refl

checkout-ArePriced_example :
    (vis : List ValidatedItem) × ArePriced surroundings shop_client (one_large ∷ []) vis
    × (◌≢◌ {A = List ItemOrderRequest} (one_large ∷ []) [])
    × Places surroundings draws "ann" "mail" order_form
        (surroundings.add (total_of surroundings 0 vis) 9)
        no_gateway
        vis
        (tables shop)
        (tables
          (checkout memory surroundings products no_gateway draws "ann" "mail" order_form shop).1)
unfolding checkout place_order create_order_with_items_and_outbox insert_items insert_outbox
    get_order_by_id optional_params validate_items validate_from cached_product fetch_active
    get_product_by_id price_item find_variant lookup put trim_space to_upper steps
checkout-ArePriced_example =
    checkout-ArePriced memory surroundings memory_laws shop_client no_gateway draws "ann" "mail"
      order_form shop refl
