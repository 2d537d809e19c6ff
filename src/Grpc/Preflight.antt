-- ===== src/Grpc/Preflight.antt =====
-- What CheckActiveOrders of internal/grpc/order_service.go tells an upstream service.
use store_order.Base.{
  String, ◌≡◌, ◌↔◌, refl, ◌∙◌, ap, subst, Option, some, List, [], ◌∷◌, map-Memᴰ, Memᴰ-map, Memᴰ,
  true, false, is_empty, Result, ok, err, wrapped-ok, Bool-cases, inl, inr, arith, eq_iff,
}
use store_order.Schema.{
  OrderStatus, OrderModel, pending_payment, paid, processing, shipped, completed, cancelled,
  expired,
}
use store_order.Runtime.{Runtime}
use store_order.Prisma.{Prisma, user_id_equals, status_in, OrderWhere}
use store_order.Prisma.Tables.{PrismaLaws, matches, fetched}
use store_order.Repository.Orders.{list_active_orders_by_user_id, active_statuses}
use store_order.Grpc.{
  CheckActiveOrdersResponse, response, requested_user, active_reply, reply_of, check_active_orders,
  map_order_model_to_active_summary, ActiveOrderSummary,
}

-- an order on which an account still has a claim
abbrev pub IsActive : OrderStatus → Type 0
IsActive pending_payment = Unit
IsActive paid = Unit
IsActive processing = Unit
IsActive shipped = Unit
IsActive _ = ⊥

abbrev active_filters : String → List OrderWhere
active_filters user = user_id_equals user ∷ status_in active_statuses ∷ []

matches_iff :
    (user : String) (o : OrderModel)
    → (matches (active_filters user) o ≡ true) ↔ ((o.user_id ≡ user) × IsActive o.status)
matches_iff user o = go o.status refl
  where
    go :
        (st : OrderStatus)
        → o.status ≡ st
        → (matches (active_filters user) o ≡ true) ↔ ((o.user_id ≡ user) × IsActive st)
    go pending_payment h = ground (arith, h, eq_iff o.user_id user)
    go paid h = ground (arith, h, eq_iff o.user_id user)
    go processing h = ground (arith, h, eq_iff o.user_id user)
    go shipped h = ground (arith, h, eq_iff o.user_id user)
    go completed h = ground (arith, h, eq_iff o.user_id user)
    go cancelled h = ground (arith, h, eq_iff o.user_id user)
    go expired h = ground (arith, h, eq_iff o.user_id user)

response_inj : {a b : CheckActiveOrdersResponse} → response a ≡ response b → a ≡ b
response_inj h = cc

module _ (p : Prisma) (rt : Runtime) (l : PrismaLaws p) (s : p.State) where
  open l use {tables}

  -- a stored order of the user that is active
  abbrev pub IsActiveOf : String → OrderModel → Type 0
  IsActiveOf user o = ((tables s).order o.id ≡ some o) × (o.user_id ≡ user) × IsActive o.status

  -- What a response says of the user's orders: it has the summary of every active one and nothing
  -- else, and its flag says whether there is one.
  abbrev pub Reports : String → CheckActiveOrdersResponse → Type 0
  Reports user r =
      ((o : OrderModel)
        → IsActiveOf user o
        → Memᴰ (map_order_model_to_active_summary rt o) r.active_orders)
      × ((x : ActiveOrderSummary)
          → Memᴰ x r.active_orders
          → (o : OrderModel) × IsActiveOf user o × (x ≡ map_order_model_to_active_summary rt o))
      × ((r.has_active_orders ≡ true) ↔ ((o : OrderModel) × IsActiveOf user o))

  -- the answer to a list that holds just the active orders
  abbrev Lists : String → List OrderModel → Type 0
  Lists user os =
      ((o : OrderModel) → IsActiveOf user o → Memᴰ (fetched false o) os)
      × ((o : OrderModel)
          → Memᴰ o os
          → (r : OrderModel) × IsActiveOf user r × (o ≡ fetched false r))

  list_active-Lists :
      (user : String) {os : List OrderModel}
      → (list_active_orders_by_user_id p user s).0 ≡ ok os
      → Lists user os
  unfolding list_active_orders_by_user_id
  list_active-Lists user {os} h =
      let found = wrapped-ok _ _ h in
      (
        λ o active.
            l.find_orders_complete _ s os o found refl active.0
              ((matches_iff user o).1 (active.1, active.2)),
        λ o m.
            let (r, row, match, same) = l.find_orders_sound _ s os o found m in
            let (owner, active) = (matches_iff user r).0 match in (r, (row, owner, active), same),
      )

  active_reply-Reports :
      (user : String) (os : List OrderModel) {r : CheckActiveOrdersResponse}
      → Lists user os
      → active_reply rt os ≡ response r
      → Reports user r
  active_reply-Reports user [] lists h = subst (Reports user) (response_inj h) (
    (λ o active. elim (lists.0 o active) [ ]),
    (λ x m. elim m [ ]),
    (λ e. absurd (ground arith), λ (o, active). elim (lists.0 o active) [ ]),
  )
  active_reply-Reports user (order ∷ orders) lists h =
      let summary = map_order_model_to_active_summary rt in
      let os = order ∷ orders in
      subst (Reports user) (response_inj h) (
        (λ o active. map-Memᴰ summary os (lists.0 o active)),
        (λ x m.
            let (o, n, e) = Memᴰ-map summary os m in
            let (row, active, same) = lists.1 o n in (row, active, e ∙ ap summary same)),
        (
          (λ e. let (row, active, _) = lists.1 order (Memᴰ.head refl) in (row, active)),
          (λ _. refl),
        ),
      )

  list_active-keeps : (user : String) → tables (list_active_orders_by_user_id p user s).1 ≡ tables s
  unfolding list_active_orders_by_user_id
  list_active-keeps user = l.find_orders_keeps _ s

  reply_of-ok :
      (r : Result (List OrderModel)) {c : CheckActiveOrdersResponse}
      → reply_of rt r ≡ response c
      → (os : List OrderModel) × (r ≡ ok os) × (active_reply rt os ≡ response c)
  reply_of-ok (ok os) h = (os, refl, h)
  reply_of-ok (err e) h = cc

  -- A response to the pre-flight check is for a user who is named, has a summary of every stored order
  -- of the user that is unpaid, paid, in processing or shipped, and of no other order, and says that
  -- the account is blocked exactly when there is such an order; no table has changed.
  pub check_active_orders-Reports :
      (req : Option String) {r : CheckActiveOrdersResponse}
      → (check_active_orders p rt req s).0 ≡ response r
      → (is_empty (requested_user req) ≡ false)
        × Reports (requested_user req) r
        × (tables (check_active_orders p rt req s).1 ≡ tables s)
  unfolding check_active_orders
  check_active_orders-Reports req {r} h =
      let user = requested_user req in
      elim (Bool-cases (is_empty user)) [
        | inl blank ↦ absurd (ground arith)
        | inr named ↦
            let answered : reply_of rt (list_active_orders_by_user_id p user s).0 ≡ response r =
              rw named at h in
            let (os, listed, reply) = reply_of-ok _ answered in
            (
              named,
              active_reply-Reports user os (list_active-Lists user listed) reply,
              rw named (list_active-keeps user),
            )
      ]
