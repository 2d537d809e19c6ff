-- ===== src/LifeCycle/Cleanups.antt =====
-- AnonymizeUserOrdersAndCancelUnpaid and CancelUnpaidUserOrders cancel unpaid orders and do nothing
-- else to the status of any, also where they fail half way.
use store_order.Base.{
  ◌>>◌, ◌>>=◌, wrap, some, false, String, ◌≡◌, refl, sym, ◌∙◌, ap, subst, List, [], ◌∷◌, inl, inr,
  ◌⊎◌, arith, Memᴰ, ok, wrapped, wrapped-ok, ◌<>◌, true, Action,
}
use store_order.Schema.{Time, OrderStatus, pending_payment, cancelled, OrderModel, OrderSet}
use store_order.Prisma.{Prisma, user_id_equals, status_equals, OrderWhere}
use store_order.Prisma.Tables.{PrismaLaws, stamped, matches}
use store_order.Prisma.Changes.{Changes, find_orders-Within, continue-Within}
use store_order.Repository.{OutboxCreateInput}
use store_order.Repository.Orders.{
  update_each, all_where, anonymize_orders, anonymize_params, cancel_orders, cancel_params,
  insert_events, anonymize_user_orders_and_cancel_unpaid, cancel_unpaid_user_orders,
}
use store_order.Repository.Orders.Changes.{update_each-Within, insert_events-Within}
use store_order.Repository.Orders.Cleanup.{id-fetched, status-fetched, status_text-eq_pending}
use store_order.LifeCycle.{cancel_unpaid}
use store_order.LifeCycle.Rows.{Follows, Follows-IsPreorder, stamped-IsSameOrder}

-- The rows that may be cancelled, or already are.
abbrev IsOpen : OrderStatus → Type 0
IsOpen st = (st ≡ pending_payment) ⊎ (st ≡ cancelled)

cancelled-Permits :
    (st : OrderStatus)
    → IsOpen st
    → (cancelled ≡ st) ⊎ ((st ≡ pending_payment) × (cancelled ≡ cancelled))
cancelled-Permits st (inl e) = inr (e, refl)
cancelled-Permits st (inr e) = inl (sym e)

IsOpen-Follows :
    {r r' : OrderModel} → Follows cancel_unpaid r r' → IsOpen r.status → IsOpen r'.status
IsOpen-Follows (_, inl e) h = subst IsOpen (sym e) h
IsOpen-Follows (_, inr (_, e)) h = inr e

-- a row that is assigned what an order with the status `st` is
abbrev Anonymizes : OrderModel → OrderStatus → Type 0
Anonymizes r st = (st ≡ pending_payment) → IsOpen r.status

anonymize_params-Follows :
    (email : String) (r : OrderModel) (st : OrderStatus) (now : Time)
    → Anonymizes r st
    → Follows cancel_unpaid r (stamped (anonymize_params email st) now r)
anonymize_params-Follows email r pending_payment now h = (
  stamped-IsSameOrder (anonymize_params email pending_payment) now r,
  cancelled-Permits r.status (h refl),
)
anonymize_params-Follows email r st now h =
    (stamped-IsSameOrder (anonymize_params email st) now r, inl refl)

module _ (p : Prisma) (l : PrismaLaws p) where
  open l use {tables}

  abbrev Within : {A : Type 0} → Action p.State A → p.State → Type 0
  Within m s = Changes (Follows cancel_unpaid) (tables s) (tables (m s).1)

  -- what the listed orders were when they were read
  abbrev Listed : List OrderWhere → p.State → List OrderModel → Type 0
  Listed filters s os =
      (o : OrderModel)
      → Memᴰ o os
      → (r : OrderModel) × ((tables s).order o.id ≡ some r)
        × (o.status ≡ r.status)
        × (matches filters r ≡ true)

  found-Listed :
      (filters : List OrderWhere) (s : p.State) (os : List OrderModel)
      → (p.find_orders (all_where filters) s).0 ≡ ok os
      → Listed filters (p.find_orders (all_where filters) s).1 os
  found-Listed filters s os h o m =
      let (r, row, met, same) = l.find_orders_sound (all_where filters) s os o h m in
      let id : o.id ≡ r.id = ap (λ (x : OrderModel). x.id) same ∙ id-fetched false r in
      (
        r,
        subst (λ t. t.order o.id ≡ some r) (sym (l.find_orders_keeps (all_where filters) s))
            (ap (tables s).order id ∙ row),
        ap (λ (x : OrderModel). x.status) same ∙ status-fetched false r,
        met,
      )

  -- one of the two clean-ups: its query, its loop, and its events
  module _ (sets : OrderStatus → List OrderSet) (failure : OrderModel → String)
      (Touches : OrderModel → OrderStatus → Type 0)
      (touched : (r : OrderModel) (st : OrderStatus) (now : Time)
        → Touches r st
        → Follows cancel_unpaid r (stamped (sets st) now r))
      (keeps : (r r' : OrderModel) (st : OrderStatus)
        → Follows cancel_unpaid r r'
        → Touches r st
        → Touches r' st)
      (filters : List OrderWhere)
      (meets : (r : OrderModel) → matches filters r ≡ true → Touches r r.status) where
    cleanup-Within :
        (text : String) (events : List OutboxCreateInput) (s : p.State)
        → Within
            (wrap text (p.find_orders (all_where filters)) >>= λ orders.
              update_each p failure sets orders >> insert_events p events)
            s
    cleanup-Within text events s =
        let pre = Follows-IsPreorder cancel_unpaid in
        let query = p.find_orders (all_where filters) s in
        continue-Within (Follows cancel_unpaid) pre p l (wrapped text query.0)
          (λ orders. update_each p failure sets orders >> insert_events p events) s query.1
          (find_orders-Within (Follows cancel_unpaid) pre p l (all_where filters) s)
          λ os e.
            let looped = update_each p failure sets os query.1 in
            continue-Within (Follows cancel_unpaid) pre p l looped.0 (λ _. insert_events p events)
              query.1 looped.1
              (update_each-Within (Follows cancel_unpaid) pre p l sets failure Touches touched keeps
                os query.1
                λ o m.
                  let (r, row, same, met) =
                    found-Listed filters s os (wrapped-ok text query.0 e) o m in
                  (r, row, subst (Touches r) (sym same) (meets r met)))
              λ _ _. insert_events-Within (Follows cancel_unpaid) pre p l events looped.1

  pub anonymize-Within :
      (user email : String) (events : List OutboxCreateInput) (s : p.State)
      → Within (anonymize_user_orders_and_cancel_unpaid p user email events) s
  unfolding anonymize_user_orders_and_cancel_unpaid anonymize_orders
  anonymize-Within user email events s =
      cleanup-Within (anonymize_params email)
        (λ order. "failed to anonymize and update order " <> order.id) Anonymizes
        (anonymize_params-Follows email) (λ r r' st c h e. IsOpen-Follows c (h e))
        (user_id_equals user ∷ []) (λ r met e. inl e)
        ("failed to list orders for user deletion cleanup (userID: " <> user <> ")") events s

  pub cancel_unpaid-Within :
      (user : String) (events : List OutboxCreateInput) (s : p.State)
      → Within (cancel_unpaid_user_orders p user events) s
  unfolding cancel_unpaid_user_orders cancel_orders
  cancel_unpaid-Within user events s =
      cleanup-Within (λ _. cancel_params)
        (λ order. "failed to cancel pending order " <> order.id <> " for banned user")
        (λ r st. IsOpen r.status)
        (λ r st now h. (stamped-IsSameOrder cancel_params now r, cancelled-Permits r.status h))
        (λ r r' st c h. IsOpen-Follows c h)
        (user_id_equals user ∷ status_equals "PENDING_PAYMENT" ∷ [])
        (λ r met. inl (met-pending r met))
        ("failed to find pending orders for banned user " <> user) events s
    where
      met-pending :
          (r : OrderModel)
          → matches (user_id_equals user ∷ status_equals "PENDING_PAYMENT" ∷ []) r ≡ true
          → r.status ≡ pending_payment
      met-pending r met = ground (arith, status_text-eq_pending r.status)
