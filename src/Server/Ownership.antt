-- ===== src/Server/Ownership.antt =====
-- What a customer's calls of internal/service/order_service.go do to the orders of others: nothing, on
-- every path.
use text.Mathlib.TextPositions.{eq_refl}
use store_order.Base.{
  String, ◌≡◌, refl, sym, ◌∙◌, ap, subst, Option, none, some, List, [], ◌∷◌, Result, inl, inr, ◌⊎◌,
  false, Bool-cases, Action, wrapped, wrapped-ok, is_empty, ◌==◌, eq_iff, ◌>>◌,
}
use store_order.Schema.{
  Float64, OrderModel, OrderItemModel, pending_payment, cancelled, same_status,
}
use store_order.Runtime.{Runtime, Draw}
use store_order.Prisma.{Prisma, NewOrder, by_id}
use store_order.Prisma.Tables.{PrismaLaws, Tables, with_item, change_order, new_order, insert_order}
use store_order.Prisma.Changes.{
  IsPreorder, Changes, Changes_refl, find_order-Within, create_order-Within,
  create_order_item-Within, continue-Within,
}
use store_order.Repository.{OrderItemInput, OrderCreateInput, OutboxCreateInput}
use store_order.Repository.Orders.{
  insert_items, insert_outbox, get_order_by_id, create_order_with_items_and_outbox, new_item,
  optional_params, update_params, update_order_status_with_outbox,
}
use store_order.Repository.Orders.Changes.{insert_outbox-Within, update_order_status-Within}
use store_order.Repository.Orders.Loops.{some_inj}
use store_order.Product.{ItemOrderRequest, ValidatedItem}
use store_order.Midtrans.{SnapTransactionRequest, SnapResponse}
use store_order.Service.Response.{response_of}
use store_order.Service.Checkout.{CheckoutRequest, CheckoutDraws, checkout}
use store_order.Service.Customer.{
  check_cancellable, cancel_found, cancel_customer_order, cancel_outbox,
}
use store_order.Service.Changes
use store_order.Service.Changes.{with_order-Within, pure-Within}
use store_order.LifeCycle.Rows.{stamped-IsSameOrder, apply_sets-IsSameOrder}

-- A row that is not the user's stays as it was.
abbrev pub Owns : String → OrderModel → OrderModel → Type 0
Owns user o o' = (o' ≡ o) ⊎ ((o.user_id ≡ user) × (o'.user_id ≡ user))

Owns_trans : (user : String) (a b c : OrderModel) → Owns user a b → Owns user b c → Owns user a c
Owns_trans user a b c (inl e) (inl f) = inl (f ∙ e)
Owns_trans user a b c (inl e) (inr h) = inr (ap (λ (x : OrderModel). x.user_id) (sym e) ∙ h.0, h.1)
Owns_trans user a b c (inr h) (inl f) = inr (h.0, ap (λ (x : OrderModel). x.user_id) f ∙ h.1)
Owns_trans user a b c (inr h) (inr k) = inr (h.0, k.1)

pub Owns-IsPreorder : (user : String) → IsPreorder (Owns user)
Owns-IsPreorder user = record {
  same = λ o. inl refl;
  after = λ a b c h k. Owns_trans user a b c h k;
}

-- The row at this key, if there is one, is the user's.
abbrev IsOwnAt : String → String → Tables → Type 0
IsOwnAt user id t = (o : OrderModel) → t.order id ≡ some o → o.user_id ≡ user

change_order-IsOwnAt :
    (user id : String) (i : OrderItemModel) (t : Tables)
    → IsOwnAt user id t
    → IsOwnAt user id (change_order id (with_item i) t)
change_order-IsOwnAt user id i t own o here = go (t.order id) refl
  where
    go : (x : Option OrderModel) → t.order id ≡ x → o.user_id ≡ user
    go none e = absurd (cc (rw (eq_refl id, e) at here))
    go (some r) e =
        ap (λ (x : OrderModel). x.user_id) (some_inj (sym (rw (eq_refl id, e) at here))) ∙ own r e

insert_order-IsOwnAt :
    (user : String) (o : OrderModel) (t : Tables)
    → o.user_id ≡ user
    → IsOwnAt user o.id (insert_order o t)
insert_order-IsOwnAt user o t own r here =
    ap (λ (x : OrderModel). x.user_id) (some_inj (sym (rw (eq_refl o.id) at here))) ∙ own

module _ (p : Prisma) (rt : Runtime) (l : PrismaLaws p) (user : String) where
  open l use {tables}

  abbrev pub Within : {A : Type 0} → Action p.State A → p.State → Type 0
  Within m s = Changes (Owns user) (tables s) (tables (m s).1)

  abbrev pre : IsPreorder (Owns user)
  pre = Owns-IsPreorder user

  pub nothing_done : (s : p.State) → Changes (Owns user) (tables s) (tables s)
  nothing_done s = Changes_refl (Owns user) pre (tables s)

  insert_items-Within :
      (order_id : String) (items : List OrderItemInput) (s : p.State)
      → IsOwnAt user order_id (tables s)
      → Within (insert_items p order_id items) s
  unfolding insert_items
  insert_items-Within order_id [] s own = nothing_done s
  insert_items-Within order_id (item ∷ items) s own =
      let n = new_item order_id item in
      let query = p.create_order_item n s in
      continue-Within (Owns user) pre p l (wrapped "failed to insert order item" query.0)
        (λ _. insert_items p order_id items) s query.1
        (create_order_item-Within (Owns user) pre p l n s λ o i here. inr (own o here, own o here))
        λ i e.
          let (_, done) =
            l.create_order_item_done n s i (wrapped-ok "failed to insert order item" query.0 e) in
          insert_items-Within order_id items query.1 (
            subst (IsOwnAt user order_id) (sym done)
              (change_order-IsOwnAt user order_id i (tables s) own))

  create-Within :
      (input : OrderCreateInput) (items : List OrderItemInput) (outbox : Option OutboxCreateInput)
      (s : p.State)
      → input.user_id ≡ user
      → Within (create_order_with_items_and_outbox p rt input items outbox) s
  unfolding create_order_with_items_and_outbox get_order_by_id
  create-Within input items outbox s mine =
      let n : NewOrder = record {
        order_number = input.order_number;
        user_id = input.user_id;
        user_email = input.user_email;
        total_amount = input.total_amount;
        params = optional_params rt input;
      } in
      let failure : String = "failed to insert initial outbox event" in
      let query = p.create_order n s in
      continue-Within (Owns user) pre p l (wrapped "failed to insert order" query.0)
        (λ created.
          insert_items p created.id items
          >> (insert_outbox p failure created.id outbox >> get_order_by_id p created.id))
        s query.1 (create_order-Within (Owns user) pre p l n s)
        λ created e.
          let (_, made, done) =
            l.create_order_done n s created (wrapped-ok "failed to insert order" query.0 e) in
          let filled = insert_items p created.id items query.1 in
          continue-Within (Owns user) pre p l filled.0
            (λ _. insert_outbox p failure created.id outbox >> get_order_by_id p created.id) query.1
            filled.1
            (insert_items-Within created.id items query.1 (
              subst (IsOwnAt user created.id) (sym done) (
                insert_order-IsOwnAt user created (tables s)
                  (user_id-new_order n created made ∙ mine))))
            λ _ _.
              let announce = insert_outbox p failure created.id outbox filled.1 in
              continue-Within (Owns user) pre p l announce.0 (λ _. get_order_by_id p created.id)
                filled.1 announce.1
                (insert_outbox-Within (Owns user) pre p l failure created.id outbox filled.1)
                λ _ _. find_order-Within (Owns user) pre p l (by_id created.id) announce.1
    where
      user_id-new_order :
          (n : NewOrder) (o : OrderModel)
          → o ≡ new_order n o.id o.created_at o.updated_at
          → o.user_id ≡ n.user_id
      user_id-new_order n o made =
          ap (λ (x : OrderModel). x.user_id) made ∙ (apply_sets-IsSameOrder n.params _).user_id

  pub checkout-Within :
      (products : List ItemOrderRequest → Result (List ValidatedItem × Float64))
      (snap : SnapTransactionRequest → Result SnapResponse) (draws : CheckoutDraws) (email : String)
      (req : CheckoutRequest) (s : p.State)
      → Within (checkout p rt products snap draws user email req) s
  checkout-Within = Changes.checkout-Within (Owns user) pre p l rt user create-Within

  -- A cancellation by the owner, who has an identifier.
  cancel_found-Within :
      (draw : Draw) (id : String) (o : OrderModel) (s : p.State)
      → is_empty user ≡ false
      → (tables s).order id ≡ some o
      → Within (cancel_found p rt draw user id o) s
  unfolding cancel_found check_cancellable
  cancel_found-Within draw id o s named row = elim (Bool-cases (o.user_id == user)) [
    | inr other ↦ rw (named, other) (nothing_done s)
    | inl mine ↦ elim (Bool-cases (same_status o.status pending_payment)) [
      | inr moved ↦ rw (named, mine, moved) (nothing_done s)
      | inl unpaid ↦
          rw (named, mine, unpaid)
            (pure-Within (Owns user) pre p l
              (update_order_status_with_outbox p id cancelled none none
                (some (cancel_outbox rt draw o)))
              (response_of rt) s
              (update_order_status-Within (Owns user) pre p l id cancelled none none
                (some (cancel_outbox rt draw o)) s
                λ r now here.
                  let own : r.user_id ≡ user =
                    ap (λ (x : OrderModel). x.user_id) (some_inj (sym here ∙ row))
                    ∙ (eq_iff o.user_id user).0 mine in
                  inr (
                    own,
                    (stamped-IsSameOrder (update_params cancelled none none) now r).user_id ∙ own,
                  )))
    ]
  ]

  pub cancel-Within :
      (draw : Draw) (id : String) (s : p.State)
      → is_empty user ≡ false
      → Within (cancel_customer_order p rt draw user id) s
  unfolding cancel_customer_order
  cancel-Within draw id s named =
      with_order-Within (Owns user) pre p l id (cancel_found p rt draw user id) s
        λ o s' row. cancel_found-Within draw id o s' named row
