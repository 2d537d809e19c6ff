-- ===== src/Service/Changes.antt =====
-- What the methods of internal/service/order_service.go share in what they do to the stored orders, on
-- every path and for any relation on rows.
use store_order.Base.{
  ◌>>=◌, continue, String, ◌≡◌, refl, ◌∙◌, ap, Option, none, some, List, Result, ok, err, inl, inr,
  Bool-cases, Action, wrapped, is_empty, trim_space, pure,
}
use store_order.Schema.{Float64, OrderModel}
use store_order.Runtime.{Runtime}
use store_order.Prisma.{Prisma, by_id}
use store_order.Prisma.Tables.{PrismaLaws, Tables}
use store_order.Prisma.Changes.{
  IsPreorder, Changes, Changes_refl, Changes_trans, find_order-Within, continue-Within,
}
use store_order.Repository.{OrderItemInput, OrderCreateInput, OutboxCreateInput}
use store_order.Repository.Orders.{get_order_by_id, create_order_with_items_and_outbox}
use store_order.Product.{ItemOrderRequest, ValidatedItem}
use store_order.Midtrans.{SnapTransactionRequest, SnapResponse}
use store_order.Service.Response.{response_of}
use store_order.Service.Checkout.{
  CheckoutRequest, CheckoutDraws, checkout, place_order, snap_request, generate_order_number,
  order_input, created_outbox, created_data, url_of, repo_items,
}
use store_order.Service.Customer.{with_order}

module _ (P : OrderModel → OrderModel → Type 0) (pre : IsPreorder P) (p : Prisma)
    (l : PrismaLaws p) where
  open l use {tables}

  abbrev Within : {A : Type 0} → Action p.State A → p.State → Type 0
  Within m s = Changes P (tables s) (tables (m s).1)

  pub nothing_done : (s : p.State) → Changes P (tables s) (tables s)
  nothing_done s = Changes_refl P pre (tables s)

  -- the lookup with which most methods begin
  pub with_order-Within :
      {B : Type 0} (id : String) (f : OrderModel → Action p.State B) (s : p.State)
      → ((o : OrderModel) (s' : p.State) → (tables s').order id ≡ some o → Within (f o) s')
      → Within (with_order p id f) s
  unfolding get_order_by_id
  with_order-Within id f s h =
      let query = p.find_order (by_id id) s in
      let read = find_order-Within P pre p l (by_id id) s in go query.0 refl read
    where
      go :
          (x : Result (Option OrderModel))
          → (p.find_order (by_id id) s).0 ≡ x
          → Changes P (tables s) (tables (p.find_order (by_id id) s).1)
          → Within (with_order p id f) s
      go (err e) same read = rw same read
      go (ok none) same read = rw same read
      go (ok (some o)) same read =
          let s' = (p.find_order (by_id id) s).1 in
          let row : (tables s').order id ≡ some o =
            ap (λ (t : Tables). t.order id) (l.find_order_keeps (by_id id) s)
            ∙ l.find_order_by_id id s o same in
          rw same (Changes_trans P pre read (h o s' row))

  -- what follows a call of the repository and only returns
  pub pure-Within :
      {A B : Type 0} (m : Action p.State A) (g : A → B) (s : p.State)
      → Within m s
      → Within (m >>= λ a. pure (g a)) s
  pure-Within m g s c =
      continue-Within P pre p l (m s).0 (λ a s. (ok (g a), s)) s (m s).1 c
        λ a _. nothing_done (m s).1

  -- A checkout does what the creation of its order does.
  module _ (rt : Runtime) (user : String)
      (creates : (input : OrderCreateInput) (items : List OrderItemInput)
          (outbox : Option OutboxCreateInput) (s : p.State)
        → input.user_id ≡ user
        → Within (create_order_with_items_and_outbox p rt input items outbox) s) where
    placed-Within :
        (products : List ItemOrderRequest → Result (List ValidatedItem × Float64))
        (snap : SnapTransactionRequest → Result SnapResponse) (draws : CheckoutDraws)
        (email : String) (req : CheckoutRequest) (vis : List ValidatedItem) (subtotal : Float64)
        (s : p.State)
        → Within (place_order p rt products snap draws user email req (vis, subtotal)) s
    unfolding place_order
    placed-Within products snap draws email req vis subtotal s =
        let total = rt.add subtotal req.shipping_fee in
        let answer =
          snap
            (snap_request rt (generate_order_number rt draws) email total req.shipping_fee vis) in
        let input = order_input rt draws user email req total answer in
        let outbox = some (
          created_outbox rt draws
            (created_data rt draws user email req total (url_of answer) vis)) in
        let saved = create_order_with_items_and_outbox p rt input (repo_items vis) outbox s in
        continue-Within P pre p l (wrapped "failed to save order" saved.0)
          (λ created s. (ok (response_of rt created), s)) s saved.1
          (creates input (repo_items vis) outbox s refl) λ created _. nothing_done saved.1

    pub checkout-Within :
        (products : List ItemOrderRequest → Result (List ValidatedItem × Float64))
        (snap : SnapTransactionRequest → Result SnapResponse) (draws : CheckoutDraws)
        (email : String) (req : CheckoutRequest) (s : p.State)
        → Within (checkout p rt products snap draws user email req) s
    unfolding checkout
    checkout-Within products snap draws email req s =
        elim (Bool-cases (is_empty (trim_space user))) [
          | inl blank ↦ rw blank (nothing_done s)
          | inr named ↦ rw named (priced (products req.items) refl)
        ]
      where
        priced :
            (x : Result (List ValidatedItem × Float64))
            → products req.items ≡ x
            → Changes P (tables s) (
                tables
                  (continue
                    (wrapped "item validation failed" (products req.items))
                    (place_order p rt products snap draws user email req)
                    s).1)
        priced (err e) same = rw same (nothing_done s)
        priced (ok (vis, subtotal)) same =
            rw same (placed-Within products snap draws email req vis subtotal s)
