-- ===== src/Service/Customer/Reads.antt =====
-- What GetCustomerOrder and ListCustomerOrders of order_service.go show a customer.
use store_order.Base.{
  ◌<◌, pos, is_positive, if◌then◌else◌, String, ◌≡◌, ◌≤◌, refl, sym, ◌∙◌, ap, Option, some, [], ◌∷◌,
  List, ok, continue-ok, ok_inj, continue-pure, arith, eq_iff, ℤ, pos_part, length, Memᴰ, subst, ℕ,
}
use store_order.Schema.{OrderModel}
use store_order.Runtime.{Runtime}
use store_order.Prisma.{Prisma, user_id_equals, OrderWhere}
use store_order.Prisma.Tables.{PrismaLaws}
use store_order.Repository.Orders.{
  page_of, page_where, all_where, list_orders_by_user_id, with_total,
}
use store_order.Service.Response.{OrderResponse, OrderListResponse, to_order_response}
use store_order.Service.Response.Views.{
  Shows, ShowAll, to_order_response-Shows, order_responses-ShowAll,
}
use store_order.Service.Customer.{show_found, get_customer_order, list_customer_orders}
use store_order.Service.Customer.Lookup.{with_order-ok}

module _ (p : Prisma) (rt : Runtime) where
  show_found-ok :
      (user : String) (o : OrderModel) (s : p.State) {r : Option OrderResponse}
      → (show_found p rt user o s).0 ≡ ok r
      → (o.user_id ≡ user)
        × (some (to_order_response rt o) ≡ r)
        × ((show_found p rt user o s).1 ≡ s)
  unfolding show_found
  show_found-ok user o s h = ground (arith, eq_iff o.user_id user)

  module _ (l : PrismaLaws p) (user : String) (s : p.State) where
    open l use {tables}

    -- what a lookup that succeeds returns
    pub customer_order_shown :
        (id : String) {r : Option OrderResponse}
        → (get_customer_order p rt user id s).0 ≡ ok r
        → (o : OrderModel) × ((tables s).order id ≡ some o)
          × (o.user_id ≡ user)
          × (some (to_order_response rt o) ≡ r)
          × (tables (get_customer_order p rt user id s).1 ≡ tables s)
    unfolding get_customer_order
    customer_order_shown id h =
        let (o, row, (s', kept, shown, same)) = with_order-ok p l id (show_found p rt user) s h in
        let (owner, response, still) = show_found-ok user o s' shown in
        (o, row, owner, response, ap tables (same ∙ still) ∙ kept)

    -- A customer who is shown an order owns it, and the response shows the stored row, column by
    -- column, with its items; nothing is changed.
    pub get-IsOwned :
        (id : String) {r : Option OrderResponse}
        → (get_customer_order p rt user id s).0 ≡ ok r
        → (o : OrderModel) × ((tables s).order id ≡ some o)
          × (o.user_id ≡ user)
          × ((view : OrderResponse) × (r ≡ some view) × Shows rt o view)
          × (tables (get_customer_order p rt user id s).1 ≡ tables s)
    get-IsOwned id h =
        let (o, row, owner, response, kept) = customer_order_shown id h in
        (o, row, owner, (to_order_response rt o, sym response, to_order_response-Shows rt o), kept)

    with_total-ok :
        (filters : List OrderWhere) (page : List OrderModel) (s : p.State) {os : List OrderModel}
        {total : ℕ}
        → (with_total p filters page s).0 ≡ ok (os, total)
        → (page ≡ os) × (tables (with_total p filters page s).1 ≡ tables s)
    unfolding with_total
    with_total-ok filters page s h =
        let q = all_where filters in
        let (all, _, done, same) =
          continue-pure (p.find_orders q s).0 (λ (os : List OrderModel). (page, length os))
            (p.find_orders q s).1 h in
        (
          ap (λ (x : List OrderModel × ℕ). x.0) done,
          ap tables same ∙ l.find_orders_keeps (all_where filters) s,
        )

    -- the rows of a page of the customer's orders are stored orders of that customer
    pub page-IsOwned :
        (limit offset : ℤ) {os : List OrderModel} {total : ℕ}
        → (list_orders_by_user_id p user limit offset s).0 ≡ ok (os, total)
        → (length os ≤ pos_part (page_of limit offset).take)
          × ((o : OrderModel) → Memᴰ o os → (o.user_id ≡ user) × ((tables s).order o.id ≡ some o))
          × (tables (list_orders_by_user_id p user limit offset s).1 ≡ tables s)
    unfolding list_orders_by_user_id
    page-IsOwned limit offset {os} {total} h =
        let filters = user_id_equals user ∷ [] in
        let q = page_where filters limit offset in
        let (page, read, rest, same) =
          continue-ok (p.find_orders q s).0 (with_total p filters) (p.find_orders q s).1 h in
        let (is_page, kept) = with_total-ok filters page _ rest in
        let read' : (p.find_orders q s).0 ≡ ok os = read ∙ ap ok is_page in
        (
          l.find_orders_page q s os (page_of limit offset) read' refl,
          λ o m.
              let (r, row, of_user, whole) = l.find_orders_sound q s os o read' m in
              let eq : o ≡ r = whole in
              let owner : r.user_id ≡ user = ground (arith, eq_iff r.user_id user) in
              (
                ap (λ (x : OrderModel). x.user_id) eq ∙ owner,
                subst (λ (x : OrderModel). (tables s).order x.id ≡ some x) (sym eq) row,
              ),
          ap tables same ∙ kept ∙ l.find_orders_keeps q s,
        )

    -- a page from the start that is not full has all the customer's orders
    pub page-IsWhole :
        (limit : ℤ) {os : List OrderModel} {total : ℕ}
        → (list_orders_by_user_id p user limit (pos 0) s).0 ≡ ok (os, total)
        → length os < pos_part (page_of limit (pos 0)).take
        → (o : OrderModel) → (tables s).order o.id ≡ some o
        → o.user_id ≡ user
        → Memᴰ o os
    unfolding list_orders_by_user_id
    page-IsWhole limit {os} {total} h short o row owner =
        let filters = user_id_equals user ∷ [] in
        let q = page_where filters limit (pos 0) in
        let (page, read, rest, same) =
          continue-ok (p.find_orders q s).0 (with_total p filters) (p.find_orders q s).1 h in
        let (is_page, kept) = with_total-ok filters page _ rest in
        l.find_orders_whole q s os (page_of limit (pos 0)) o (read ∙ ap ok is_page) refl refl short
          row (ground (arith, eq_iff o.user_id user))

    -- A page of a customer's orders that is returned shows at most as many orders as its limit, or
    -- twenty where the limit is not positive: each is a stored order of that customer and is shown
    -- column by column, with its items; nothing is changed.
    pub list-IsOwned :
        (limit offset : ℤ) {r : OrderListResponse}
        → (list_customer_orders p rt user limit offset s).0 ≡ ok r
        → (os : List OrderModel) × ShowAll rt os r.orders
          × (length os ≤ pos_part (if is_positive limit then limit else pos 20))
          × ((o : OrderModel) → Memᴰ o os → (o.user_id ≡ user) × ((tables s).order o.id ≡ some o))
          × (tables (list_customer_orders p rt user limit offset s).1 ≡ tables s)
    unfolding list_customer_orders
    list-IsOwned limit offset h =
        let ((os, total), read, shown, same) = continue-ok _ _ _ h in
        let (bound, owned, kept) = page-IsOwned limit offset read in
        (
          os,
          subst (ShowAll rt os) (ap (λ (r : OrderListResponse). r.orders) (ok_inj shown))
              (order_responses-ShowAll rt os),
          bound,
          owned,
          ap tables same ∙ kept,
        )
