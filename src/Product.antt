-- ===== src/Product.antt =====
-- internal/integration/product/client.go: the product service's answers, and the pricing of a
-- checkout's items. The HTTP transport and the JSON decoder are parameters.
pub mod Pricing
pub mod Catalogue
use store_order.Base.{
  ◌≡◌, refl, String, Option, none, some, List, [], ◌∷◌, ◌++◌, Bool, true, false, not, nat_eq,
  is_empty, if◌then◌else◌, ℤ, pos, ℕ, ◌<>◌, ◌==◌, Result, ok, err, wrapped, is_positive, lookup,
  put, ◌&&◌,
}
use store_order.Schema.{Float64}
use store_order.Runtime.{Runtime}

pub record VariantDto : Type 0 where
  pub id : String
  pub product_id : String
  pub sku : String
  pub size : Option String
  pub color : Option String
  pub price : Option Float64
  pub stock : ℤ
  pub is_active : Bool

pub record ProductDto : Type 0 where
  pub id : String
  pub name : String
  pub slug : String
  pub description : Option String
  pub base_price : Float64
  pub category : String
  pub is_active : Bool
  pub variants : List VariantDto

pub record ItemOrderRequest : Type 0 where
  pub product_id : String
  pub variant_id : String
  pub quantity : ℤ

pub record ValidatedItem : Type 0 where
  pub product_id : String
  pub variant_id : String
  pub product_name : String
  pub variant_name : String
  pub sku : String
  pub unit_price : Float64
  pub quantity : ℤ
  pub subtotal : Float64

pub record HttpResponse : Type 0 where
  pub status_code : ℕ
  pub body : String

-- Go's `err != nil` chain over pure steps
infixl 10 ◌>>=◌
abbrev pub ◌>>=◌ {ℓ κ} : {A : Type ℓ} {B : Type κ} → Result A → (A → Result B) → Result B
ok a >>= f = f a
err e >>= f = err e

-- Inversion of a chain that succeeds.
pub >>=-ok {ℓ κ} :
    {A : Type ℓ} {B : Type κ} (r : Result A) (f : A → Result B) {b : B}
    → (r >>= f) ≡ ok b
    → (a : A) × (r ≡ ok a) × (f a ≡ ok b)
>>=-ok (ok a) f h = (a, refl, h)
>>=-ok (err e) f h = cc

-- HTTPClient: its base URL, building a request for a URL, `httpClient.Do`, and the JSON decoder. The
-- transport is taken to answer one request the same each time that a call sends it.
pub record HttpClient : Type 0 where
  pub base_url : String
  pub new_request : String → Result String
  pub send : String → Result HttpResponse
  pub decode : String → Result ProductDto

-- NewClient, on a transport and a JSON decoder
abbrev pub new_client :
    (String → Result String)
    → (String → Result HttpResponse)
    → (String → Result ProductDto)
    → String
    → HttpClient
new_client new_request send decode base_url = record {
  base_url = base_url;
  new_request = new_request;
  send = send;
  decode = decode;
}

abbrev product_of_response : Runtime → HttpClient → String → HttpResponse → Result ProductDto
product_of_response rt c product_id resp =
    if nat_eq resp.status_code 404
    then err ("product " <> product_id <> " not found")
    else if not (nat_eq resp.status_code 200)
    then err ("product service returned status " <> rt.decimal (pos resp.status_code))
    else wrapped "failed to decode product response" (c.decode resp.body)

unfoldable pub get_product_by_id : Runtime → HttpClient → String → Result ProductDto
get_product_by_id rt c product_id =
    if is_empty c.base_url then err "product service URL is not configured" else do
      let url = c.base_url <> "/api/v1/products/" <> product_id
      request ← wrapped "failed to create product request" (c.new_request url)
      response ← wrapped "failed to reach product service" (c.send request)
      product_of_response rt c product_id response

-- the first variant with the requested id
unfoldable pub find_variant : String → List VariantDto → Option VariantDto
find_variant id [] = none
find_variant id (v ∷ vs) = let rest = find_variant id vs in if v.id == id then some v else rest

-- the variant's own price where it has one above 0
abbrev pub unit_price : Runtime → ProductDto → VariantDto → Float64
unit_price rt prod v = elim v.price [
  | none ↦ prod.base_price
  | some price ↦ if rt.is_above_zero price then price else prod.base_price
]

abbrev text_or_empty : Option String → String
text_or_empty none = ""
text_or_empty (some t) = t

abbrev has_text : Option String → Bool
has_text none = false
has_text (some t) = true

abbrev variant_label : VariantDto → String
variant_label v =
    if not (has_text v.size) && not (has_text v.color)
    then v.sku
    else text_or_empty v.size <> " / " <> text_or_empty v.color

abbrev pub priced : Runtime → ItemOrderRequest → ProductDto → VariantDto → ValidatedItem
priced rt request prod v = record {
  product_id = prod.id;
  variant_id = v.id;
  product_name = prod.name;
  variant_name = variant_label v;
  sku = v.sku;
  unit_price = unit_price rt prod v;
  quantity = request.quantity;
  subtotal = rt.mul (unit_price rt prod v) (rt.of_int request.quantity);
}

-- the item of one round of the loop, once its product is at hand
unfoldable pub price_item : Runtime → ItemOrderRequest → ProductDto → Result ValidatedItem
unfolding find_variant
price_item rt request prod = elim (find_variant request.variant_id prod.variants) [
  | none ↦ err ("variant " <> request.variant_id <> " not found on product " <> prod.name)
  | some v ↦
      if not v.is_active
      then err ("variant " <> v.sku <> " (" <> prod.name <> ") is not active")
      else ok (priced rt request prod v)
]

abbrev pub ProductCache : Type 0
ProductCache = List (String × ProductDto)

-- an inactive product ends the checkout before it is cached
unfoldable pub fetch_active : Runtime → HttpClient → String → Result ProductDto
unfolding get_product_by_id
fetch_active rt c id = do
  prod ← get_product_by_id rt c id
  if not prod.is_active
      then err ("product " <> rt.quoted prod.name <> " is currently inactive")
      else ok prod

-- `prod, exists := productCache[id]`, with the fetch on a miss
unfoldable pub cached_product :
    Runtime → HttpClient → String → ProductCache → Result (ProductDto × ProductCache)
unfolding fetch_active
cached_product rt c id cache = elim (lookup id cache) [
  | some prod ↦ ok (prod, cache)
  | none ↦ fetch_active rt c id >>= λ prod. ok (prod, put id prod cache)
]

-- the loop over the requests, with its variables `productCache`, `validatedItems`, `totalAmount`
unfoldable pub validate_from :
    Runtime
    → HttpClient
    → List ItemOrderRequest
    → ProductCache
    → List ValidatedItem
    → Float64
    → Result (List ValidatedItem × Float64)
unfolding cached_product price_item
validate_from rt c [] cache done total = ok (done, total)
validate_from rt c (request ∷ requests) cache done total =
    if not (is_positive request.quantity)
    then err (
        "invalid quantity " <> rt.decimal request.quantity <> " for product " <> request.product_id)
    else do
      (prod, cache') ← cached_product rt c request.product_id cache
      item ← price_item rt request prod
      validate_from rt c requests cache' (done ++ item ∷ []) (rt.add total item.subtotal)

unfoldable pub validate_items :
    Runtime → HttpClient → List ItemOrderRequest → Result (List ValidatedItem × Float64)
unfolding validate_from
validate_items rt c [] = err "order must contain at least one item"
validate_items rt c (request ∷ requests) = validate_from rt c (request ∷ requests) [] [] 0
