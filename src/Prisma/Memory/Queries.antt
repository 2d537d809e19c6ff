-- ===== src/Prisma/Memory/Queries.antt =====
-- What the queries of the database in memory find; each gives back the state itself.
use store_order.Base.{
  ◌<◌, take, drop, take_short, ◌≤◌, String, ◌≡◌, refl, sym, ◌∙◌, ap, subst, none, some, List, [],
  ◌∷◌, map, true, ◌==◌, ok, length, select, pos_part, ℤ, arith, eq_iff, Memᴰ, Bool-cases, ok_inj,
  inl, inr, Memᴰ-take, length-take, Memᴰ-select, select-Memᴰ, Memᴰ-map, map-Memᴰ, length-map,
}
use store_order.Schema.{OutboxStatus, OrderModel, OutboxEventModel, same_outbox_status}
use store_order.Prisma.{OrderKey, by_id, by_order_number, Page, OrderQuery}
use store_order.Prisma.Tables.{matches, fetched}
use store_order.Prisma.Memory.{
  Memory, row_of, paged, find_order, find_orders, event_with, find_outbox_event, find_outbox_events,
}
use store_order.Prisma.Memory.Rows.{tables, Memᴰ-row_of, row_of-Memᴰ, numbered-Memᴰ, Memᴰ-paged}

pub find_order-by_number :
    (n : String) (m : Memory) (o : OrderModel)
    → (find_order (by_order_number n) m).0 ≡ ok (some o)
    → (row_of o.id m.rows ≡ some o) × (o.order_number ≡ n)
unfolding find_order
find_order-by_number n m o h =
    let (found, same) = numbered-Memᴰ n m.rows {o = o} (ok_inj h) in
    (Memᴰ-row_of m.rows o m.distinct found, same)

pub find_order-keeps : (k : OrderKey) (m : Memory) → tables (find_order k m).1 ≡ tables m
unfolding find_order
find_order-keeps (by_id id) m = refl
find_order-keeps (by_order_number n) m = refl

pub find_orders_sound :
    (q : OrderQuery) (m : Memory) (os : List OrderModel) (o : OrderModel)
    → (find_orders q m).0 ≡ ok os
    → Memᴰ o os
    → (r : OrderModel) × (row_of r.id m.rows ≡ some r)
      × (matches q.filters r ≡ true)
      × (o ≡ fetched q.with_items r)
unfolding find_orders
find_orders_sound q m os o h mem =
    let (r, found, same) =
      Memᴰ-map (fetched q.with_items) _ (subst (Memᴰ o) (sym (ok_inj h)) mem) in
    let (stored, match) = Memᴰ-select (matches q.filters) m.rows (Memᴰ-paged q.page _ found) in
    (r, Memᴰ-row_of m.rows r m.distinct stored, match, same)

pub find_orders-complete :
    (q : OrderQuery) (m : Memory) (os : List OrderModel) (r : OrderModel)
    → (find_orders q m).0 ≡ ok os
    → q.page ≡ none
    → row_of r.id m.rows ≡ some r
    → matches q.filters r ≡ true
    → Memᴰ (fetched q.with_items r) os
unfolding find_orders paged
find_orders-complete q m os r h whole row match =
    let all =
      map-Memᴰ (fetched q.with_items) _
        (select-Memᴰ (matches q.filters) m.rows (row_of-Memᴰ r.id m.rows row) match) in
    subst (Memᴰ (fetched q.with_items r))
      (ap (λ p. map (fetched q.with_items) (paged p (select (matches q.filters) m.rows)))
          (sym whole)
        ∙ ok_inj h)
      all

pub find_orders-page :
    (q : OrderQuery) (m : Memory) (os : List OrderModel) (page : Page)
    → (find_orders q m).0 ≡ ok os
    → q.page ≡ some page
    → length os ≤ pos_part page.take
unfolding find_orders paged
find_orders-page q m os page h paging =
    let xs = select (matches q.filters) m.rows in
    let same = ap (λ p. map (fetched q.with_items) (paged p xs)) (sym paging) ∙ ok_inj h in
    subst (λ (l : List OrderModel). length l ≤ pos_part page.take) same
      (rw (length-map (fetched q.with_items)) (length-take (pos_part page.take) _))

-- A page from the start that is not full has every row that is asked for.
pub find_orders-whole :
    (q : OrderQuery) (m : Memory) (os : List OrderModel) (page : Page) (r : OrderModel)
    → (find_orders q m).0 ≡ ok os
    → q.page ≡ some page
    → pos_part page.skip ≡ 0
    → length os < pos_part page.take
    → row_of r.id m.rows ≡ some r
    → matches q.filters r ≡ true
    → Memᴰ (fetched q.with_items r) os
unfolding find_orders paged
find_orders-whole q m os page r h paging start short row match =
    let xs = select (matches q.filters) m.rows in
    let n = pos_part page.take in
    let cut : map (fetched q.with_items) (take n xs) ≡ os =
      ap (λ k. map (fetched q.with_items) (take n (drop k xs))) (sym start)
      ∙ ap (λ p. map (fetched q.with_items) (paged p xs)) (sym paging)
      ∙ ok_inj h in
    let few : length (take n xs) < n =
      subst (λ k. k < n)
        (ap (λ (l : List OrderModel). length l) (sym cut)
          ∙ length-map (fetched q.with_items) (take n xs))
        short in
    subst (Memᴰ (fetched q.with_items r))
      (ap (map (fetched q.with_items)) (sym (take_short n xs few)) ∙ cut)
      (map-Memᴰ (fetched q.with_items) _
        (select-Memᴰ (matches q.filters) m.rows (row_of-Memᴰ r.id m.rows row) match))

pub event_with-Memᴰ :
    (id : String) (es : List OutboxEventModel) (e : OutboxEventModel)
    → event_with id es ≡ ok e
    → Memᴰ e es × (e.id ≡ id)
unfolding event_with
event_with-Memᴰ id [] e h = cc
event_with-Memᴰ id (x ∷ es) e h = elim (Bool-cases (x.id == id)) [
  | inl here ↦ (Memᴰ.head (ground arith), ground (arith, eq_iff x.id id))
  | inr there ↦ let (m, same) = event_with-Memᴰ id es e (ground arith) in (Memᴰ.tail m, same)
]

pub same_outbox_status_sound : (a b : OutboxStatus) → same_outbox_status a b ≡ true → a ≡ b
same_outbox_status_sound a b h = ground arith

pub find_outbox_events_sound :
    (st : OutboxStatus) (n : ℤ) (m : Memory) (es : List OutboxEventModel)
    → (find_outbox_events st n m).0 ≡ ok es
    → (length es ≤ pos_part n)
      × ((e : OutboxEventModel) → Memᴰ e es → Memᴰ e m.events × (e.status ≡ st))
unfolding find_outbox_events
find_outbox_events_sound st n m es h =
    let test = λ (e : OutboxEventModel). same_outbox_status e.status st in
    (
      subst (λ (l : List OutboxEventModel). length l ≤ pos_part n) (ok_inj h)
          (length-take (pos_part n) (select test m.events)),
      λ e mem.
          let (stored, passes) =
            Memᴰ-select test m.events
              (Memᴰ-take (pos_part n) _ (subst (Memᴰ e) (sym (ok_inj h)) mem)) in
          (stored, same_outbox_status_sound e.status st passes),
    )

pub find_order-by_id :
    (id : String) (m : Memory) (o : OrderModel)
    → (find_order (by_id id) m).0 ≡ ok (some o)
    → row_of id m.rows ≡ some o
unfolding find_order
find_order-by_id id m o h = ok_inj h

pub find_orders-keeps : (q : OrderQuery) (m : Memory) → tables (find_orders q m).1 ≡ tables m
unfolding find_orders
find_orders-keeps q m = refl

pub find_outbox_event-found :
    (id : String) (m : Memory) (e : OutboxEventModel)
    → (find_outbox_event id m).0 ≡ ok e
    → Memᴰ e m.events × (e.id ≡ id)
unfolding find_outbox_event
find_outbox_event-found id m e h = event_with-Memᴰ id m.events e h

pub find_outbox_event-keeps :
    (id : String) (m : Memory) → tables (find_outbox_event id m).1 ≡ tables m
unfolding find_outbox_event
find_outbox_event-keeps id m = refl

pub find_outbox_events-keeps :
    (st : OutboxStatus) (n : ℤ) (m : Memory) → tables (find_outbox_events st n m).1 ≡ tables m
unfolding find_outbox_events
find_outbox_events-keeps st n m = refl
