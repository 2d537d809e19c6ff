-- ===== src/Product/Catalogue.antt =====
-- What an order whose items pass ValidateItems of internal/integration/product/client.go consists of.
use store_order.Base.{
  String, ◌≡◌, ◌≢◌, refl, sym, ◌∙◌, ap, subst, Option, none, some, List, [], ◌∷◌, inl, inr, true,
  not, ok, Bool-cases, is_positive, arith, eq_iff, ◌==◌, Memᴰ, ok_inj,
}
use store_order.Schema.{Float64}
use store_order.Runtime.{Runtime}
use store_order.Product.{
  ◌>>=◌, >>=-ok, HttpClient, ItemOrderRequest, ValidatedItem, ProductDto, VariantDto, priced,
  get_product_by_id, find_variant, price_item, fetch_active, validate_items,
}
use store_order.Product.Pricing.{price_request, price_all, total_of, validate_items-eq-price_all}

module _ (rt : Runtime) (c : HttpClient) where
  -- An item is what the product service says of its request: the product is active and has the
  -- requested variant, which is active, and price and subtotal are computed from them.
  pub record IsPriced (request : ItemOrderRequest) (item : ValidatedItem) : Type 0 where
    pub prod : ProductDto
    pub variant : VariantDto
    pub fetched : get_product_by_id rt c request.product_id ≡ ok prod
    pub prod_active : prod.is_active ≡ true
    pub listed : Memᴰ variant prod.variants
    pub requested : variant.id ≡ request.variant_id
    pub variant_active : variant.is_active ≡ true
    pub counted : is_positive request.quantity ≡ true
    pub item_of : item ≡ priced rt request prod variant

  abbrev pub ArePriced : List ItemOrderRequest → List ValidatedItem → Type 0
  ArePriced [] [] = Unit
  ArePriced (request ∷ requests) (item ∷ items) = IsPriced request item × ArePriced requests items
  ArePriced _ _ = ⊥

  find_variant-Memᴰ :
      (id : String) (vs : List VariantDto) {v : VariantDto}
      → find_variant id vs ≡ some v
      → Memᴰ v vs × (v.id ≡ id)
  unfolding find_variant
  find_variant-Memᴰ id [] h = cc
  find_variant-Memᴰ id (x ∷ vs) {v} h = elim (Bool-cases (x.id == id)) [
    | inl e ↦ (Memᴰ.head (ground arith), ground (arith, eq_iff x.id id))
    | inr e ↦ let (m, same) = find_variant-Memᴰ id vs {v = v} (ground arith) in (Memᴰ.tail m, same)
  ]

  fetch_active-ok :
      (id : String) {prod : ProductDto}
      → fetch_active rt c id ≡ ok prod
      → (get_product_by_id rt c id ≡ ok prod) × (prod.is_active ≡ true)
  unfolding fetch_active
  fetch_active-ok id h = ground arith

  price_item-ok :
      (request : ItemOrderRequest) (prod : ProductDto) {item : ValidatedItem}
      → price_item rt request prod ≡ ok item
      → (v : VariantDto) × (find_variant request.variant_id prod.variants ≡ some v)
        × (v.is_active ≡ true)
        × (item ≡ priced rt request prod v)
  unfolding price_item
  price_item-ok request prod {item} h = go (find_variant request.variant_id prod.variants) refl
    where
      go :
          (o : Option VariantDto)
          → find_variant request.variant_id prod.variants ≡ o
          → (v : VariantDto) × (find_variant request.variant_id prod.variants ≡ some v)
            × (v.is_active ≡ true)
            × (item ≡ priced rt request prod v)
      go none e = absurd (ground arith)
      go (some v) e = (v, e, ground arith, ground arith)

  price_request-IsPriced :
      (request : ItemOrderRequest) {item : ValidatedItem}
      → price_request rt c request ≡ ok item
      → IsPriced request item
  unfolding price_request
  price_request-IsPriced request {item} h = elim (Bool-cases (not (is_positive request.quantity))) [
    | inl bad ↦ absurd (ground arith)
    | inr good ↦
        let priced_fetched : (fetch_active rt c request.product_id >>= price_item rt request)
            ≡ ok item =
          ground arith in
        let (prod, found, priced') =
          >>=-ok (fetch_active rt c request.product_id) (price_item rt request) priced_fetched in
        let (fetched, active) = fetch_active-ok request.product_id found in
        let (v, chosen, v_active, item_of) = price_item-ok request prod priced' in
        let (listed, requested) =
          find_variant-Memᴰ request.variant_id prod.variants {v = v} chosen in
        record {
          prod = prod;
          variant = v;
          fetched = fetched;
          prod_active = active;
          listed = listed;
          requested = requested;
          variant_active = v_active;
          counted = ground arith;
          item_of = item_of;
        }
  ]

  price_all-ArePriced :
      (requests : List ItemOrderRequest) (items : List ValidatedItem)
      → price_all rt c requests ≡ ok items
      → ArePriced requests items
  unfolding price_all
  price_all-ArePriced [] [] h = tt
  price_all-ArePriced [] (item ∷ items) h = cc
  price_all-ArePriced (request ∷ requests) items' h =
      let (item, here, h) = >>=-ok (price_request rt c request) _ h in
      let (items, there, h) = >>=-ok (price_all rt c requests) _ h in
      subst (ArePriced (request ∷ requests)) (ok_inj h)
        (price_request-IsPriced request here, price_all-ArePriced requests items there)

  -- A checkout whose items pass has at least one item; each item is of an active product and an active
  -- variant of it, has a positive quantity, and is priced by the product service alone; the total is
  -- the float sum of the subtotals.
  pub validate_items-ArePriced :
      (requests : List ItemOrderRequest) {items : List ValidatedItem} {total : Float64}
      → validate_items rt c requests ≡ ok (items, total)
      → ArePriced requests items × (requests ≢ []) × (total ≡ total_of rt 0 items)
  unfolding validate_items
  validate_items-ArePriced [] h = cc
  validate_items-ArePriced (request ∷ requests) {items} {total} h =
      let (priced', found, h) =
        >>=-ok (price_all rt c (request ∷ requests)) _
          (sym (validate_items-eq-price_all rt c request requests) ∙ h) in
      let same : priced' ≡ items = ap (λ (x : List ValidatedItem × Float64). x.0) (ok_inj h) in
      let sum : total_of rt 0 priced' ≡ total =
        ap (λ (x : List ValidatedItem × Float64). x.1) (ok_inj h) in
      (
        subst (ArePriced (request ∷ requests)) same
            (price_all-ArePriced (request ∷ requests) priced' found),
        (λ e. cc),
        sym sum ∙ ap (total_of rt 0) same,
      )
