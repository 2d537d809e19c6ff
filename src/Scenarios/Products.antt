-- ===== src/Scenarios/Products.antt =====
-- The pricing of internal/integration/product/client.go with a product service of one product.
use store_order.Base.{◌≡◌, ◌≢◌, refl, none, some, List, [], ◌∷◌, ok, pos, true, lookup, put}
use store_order.Product.{
  ◌>>=◌, HttpClient, ProductDto, VariantDto, ItemOrderRequest, ValidatedItem, priced,
  validate_items, validate_from, cached_product, fetch_active, get_product_by_id, price_item,
  find_variant,
}
use store_order.Product.Pricing.{price_all, total_of, validate_items-eq-price_all}
use store_order.Product.Catalogue.{validate_items-ArePriced, ArePriced}
use store_order.Scenarios.Fixtures.{surroundings}

abbrev large : VariantDto
large = record {
  id = "v1";
  product_id = "p1";
  sku = "SHIRT-L";
  size = some "L";
  color = none;
  price = some 30;
  stock = pos 4;
  is_active = true;
}

abbrev shirt : ProductDto
shirt = record {
  id = "p1";
  name = "Shirt";
  slug = "shirt";
  description = none;
  base_price = 20;
  category = "clothes";
  is_active = true;
  variants = large ∷ record large { id = "v2"; price = none } ∷ [];
}

abbrev pub shop_client : HttpClient
shop_client = record {
  base_url = "http://products";
  new_request = ok;
  send = λ url. ok (record { status_code = 200; body = url });
  decode = λ body. ok shirt;
}

abbrev pub one_large : ItemOrderRequest
one_large = record { product_id = "p1"; variant_id = "v1"; quantity = pos 2 }

abbrev requests : List ItemOrderRequest
requests = one_large ∷ record one_large { variant_id = "v2" } ∷ []

abbrev basket : List ValidatedItem
basket =
    priced surroundings one_large shirt large
    ∷ priced surroundings (record one_large { variant_id = "v2" }) shirt
        (record large { id = "v2"; price = none })
    ∷ []

validate_items-eq-price_all_example : validate_items surroundings shop_client requests ≡ (
    price_all surroundings shop_client requests >>= λ items.
    ok (items, total_of surroundings 0 items))
validate_items-eq-price_all_example =
    validate_items-eq-price_all surroundings shop_client one_large
      (record one_large { variant_id = "v2" } ∷ [])

validate_items-ArePriced_example :
    ArePriced surroundings shop_client requests basket
    × (◌≢◌ {A = List ItemOrderRequest} requests [])
    × (100 ≡ total_of surroundings 0 basket)
unfolding validate_items validate_from cached_product fetch_active get_product_by_id price_item
    find_variant lookup put
validate_items-ArePriced_example =
    validate_items-ArePriced surroundings shop_client requests {items = basket} {total = 100} refl
