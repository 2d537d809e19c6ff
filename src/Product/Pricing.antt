-- ===== src/Product/Pricing.antt =====
-- ValidateItems of internal/integration/product/client.go against a pricing that has no cache.
use store_order.Base.{
  String, ◌≡◌, refl, sym, ◌∙◌, ap, subst, Option, none, some, List, [], ◌∷◌, ◌++◌, ◌⊎◌, inl, inr,
  not, Result, ok, err, Result-cases, Bool-cases, if◌then◌else◌, is_positive, lookup, put,
  lookup-put, arith, eq_iff, ◌<>◌, ◌==◌, append-nil, append_assoc,
}
use store_order.Schema.{Float64}
use store_order.Runtime.{Runtime}
use store_order.Product.{
  ◌>>=◌, HttpClient, ItemOrderRequest, ValidatedItem, ProductDto, ProductCache, priced, price_item,
  fetch_active, cached_product, validate_from, validate_items,
}

-- The float sum of the subtotals, in the order of the items.
abbrev pub total_of : Runtime → Float64 → List ValidatedItem → Float64
total_of rt total [] = total
total_of rt total (item ∷ items) = total_of rt (rt.add total item.subtotal) items

module _ (rt : Runtime) (c : HttpClient) where
  -- One request priced on its own, with a fetch of its product.
  unfoldable pub price_request : ItemOrderRequest → Result ValidatedItem
  price_request request =
      if not (is_positive request.quantity)
      then err (
          "invalid quantity "
          <> rt.decimal request.quantity
          <> " for product "
          <> request.product_id)
      else (fetch_active rt c request.product_id >>= price_item rt request)

  -- All requests, up to the first that cannot be priced.
  unfoldable pub price_all : List ItemOrderRequest → Result (List ValidatedItem)
  unfolding price_request
  price_all [] = ok []
  price_all (request ∷ requests) =
      price_request request >>= λ item. price_all requests >>= λ items. ok (item ∷ items)

  -- The cache holds what a fetch returns.
  abbrev IsFetched : ProductCache → Type 0
  IsFetched cache =
      (id : String) (prod : ProductDto)
      → lookup id cache ≡ some prod
      → fetch_active rt c id ≡ ok prod

  put-IsFetched :
      (cache : ProductCache) (id : String) (prod : ProductDto)
      → IsFetched cache
      → fetch_active rt c id ≡ ok prod
      → IsFetched (put id prod cache)
  put-IsFetched cache id prod fetched here j p h = elim (Bool-cases (id == j)) [
    | inl e ↦
        let same = (eq_iff id j).0 e in
        let found : prod ≡ p = ground (arith, lookup-put id j prod cache) in
        subst (λ x. fetch_active rt c x ≡ ok p) same (here ∙ ap ok found)
    | inr e ↦ fetched j p (ground (arith, lookup-put id j prod cache))
  ]

  -- What the cached fetch returns, beside a fetch.
  abbrev Agrees : String → Result ProductDto → Result (ProductDto × ProductCache) → Type 0
  Agrees id plain cached =
      ((e : String) × (plain ≡ err e) × (cached ≡ err e))
      ⊎ ((prod : ProductDto) × (plain ≡ ok prod)
          × ((cache : ProductCache) × (cached ≡ ok (prod, cache)) × IsFetched cache))

  cached_product-Agrees :
      (id : String) (cache : ProductCache)
      → IsFetched cache
      → Agrees id (fetch_active rt c id) (cached_product rt c id cache)
  unfolding cached_product
  cached_product-Agrees id cache fetched =
      go (lookup id cache) refl (Result-cases (fetch_active rt c id))
    where
      go :
          (o : Option ProductDto)
          → lookup id cache ≡ o
          → ((prod : ProductDto) × (fetch_active rt c id ≡ ok prod))
            ⊎ ((e : String) × (fetch_active rt c id ≡ err e))
          → Agrees id (fetch_active rt c id) (cached_product rt c id cache)
      go (some prod) h r = inr (prod, fetched id prod h, (cache, rw (h, cached_product), fetched))
      go none h (inl (prod, e)) = inr (
        prod,
        e,
        (put id prod cache, rw (h, cached_product, e), put-IsFetched cache id prod fetched e),
      )
      go none h (inr (x, e)) = inl (x, e, rw (h, cached_product, e))

  -- the answer of the loop for items that are priced
  abbrev answer :
      List ValidatedItem
      → Float64
      → Result (List ValidatedItem)
      → Result (List ValidatedItem × Float64)
  answer done total r = r >>= λ items. ok (done ++ items, total_of rt total items)

  answer-cons :
      (done : List ValidatedItem) (total : Float64) (item : ValidatedItem)
      (r : Result (List ValidatedItem))
      → answer (done ++ item ∷ []) (rt.add total item.subtotal) r
        ≡ answer done total (r >>= λ items. ok (item ∷ items))
  answer-cons done total item (ok items) =
      ap (λ l. ok (l, total_of rt (rt.add total item.subtotal) items))
        (append_assoc done (item ∷ []) items)
  answer-cons done total item (err e) = refl

  -- From a cache that holds what a fetch returns, the loop answers as the pricing without a cache.
  validate_from-eq-price_all :
      (requests : List ItemOrderRequest) (cache : ProductCache) (done : List ValidatedItem)
      (total : Float64)
      → IsFetched cache
      → validate_from rt c requests cache done total ≡ answer done total (price_all requests)
  unfolding validate_from price_all price_request
  validate_from-eq-price_all [] cache done total fetched =
      ap (λ l. ok (l, total)) (sym (append-nil done))
  validate_from-eq-price_all (request ∷ requests) cache done total fetched =
      elim (Bool-cases (not (is_positive request.quantity))) [
        | inl bad ↦ rw bad refl
        | inr good ↦ rw good (elim (cached_product-Agrees request.product_id cache fetched) [
          | inl (e, plain, cached) ↦ rw (plain, cached) refl
          | inr (prod, plain, (cache', cached, fetched')) ↦
              rw (plain, cached)
                (elim (Result-cases (price_item rt request prod)) [
                  | inl (item, priced) ↦ rw priced (
                      validate_from-eq-price_all requests cache' (done ++ item ∷ [])
                        (rt.add total item.subtotal) fetched'
                      ∙ answer-cons done total item (price_all requests))
                  | inr (e, failed) ↦ rw failed refl
                ])
        ])
      ]

  -- The cache of a checkout is not seen, where the product service gives one answer to one request: an
  -- order of at least one item is answered, in items, total and error alike, as if each request were
  -- priced with a fetch of its own.
  pub validate_items-eq-price_all :
      (request : ItemOrderRequest) (requests : List ItemOrderRequest)
      → validate_items rt c (request ∷ requests)
        ≡ (price_all (request ∷ requests) >>= λ items. ok (items, total_of rt 0 items))
  unfolding validate_items lookup
  validate_items-eq-price_all request requests =
      validate_from-eq-price_all (request ∷ requests) [] [] 0 (λ id prod h. cc)
