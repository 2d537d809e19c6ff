-- ===== src/Prisma/Tables.antt =====
-- What a database state holds, and the documented effect of each query on it: a read changes no
-- table, a statement that fails changes no table, and a write that succeeds does what it says.
use mathlib.Core.Option
use store_order.Base.{
  ◌<◌, ℤ, ◌≤◌, String, ◌≡◌, Option, none, some, List, [], ◌∷◌, ◌++◌, map, Memᴰ, ok, err, Bool, true,
  ◌&&◌, ◌||◌, ◌==◌, false, if◌then◌else◌, contains, length, pos_part,
}
use store_order.Schema.{
  Time, same_status, OrderStatus, OutboxStatus, pending_payment, pending, OrderModel,
  OutboxEventModel, OrderItemModel, OrderSet, OutboxSet, apply_sets, apply_event_sets, status_text,
}
use store_order.Prisma.{
  Prisma, NewOrder, NewOrderItem, NewOutboxEvent, OrderKey, by_id, by_order_number, OrderWhere,
  user_id_equals, status_in, status_equals, order_number_contains, Page, OrderQuery,
}

-- The rows of orders by primary key, each with its line items, and the outbox.
pub record Tables : Type 0 where
  pub order : String → Option OrderModel
  pub events : List OutboxEventModel

abbrev status_among : List OrderStatus → OrderStatus → Bool
status_among [] s = false
status_among (t ∷ ts) s = same_status t s || status_among ts s

abbrev satisfies : OrderWhere → OrderModel → Bool
satisfies (user_id_equals u) o = o.user_id == u
satisfies (status_in ts) o = status_among ts o.status
satisfies (status_equals t) o = status_text o.status == t
satisfies (order_number_contains t) o = contains o.order_number t

-- A row meets all the conditions of a query.
abbrev pub matches : List OrderWhere → OrderModel → Bool
matches [] o = true
matches (w ∷ ws) o = satisfies w o && matches ws o

-- The row as the query returns it.
abbrev pub fetched : Bool → OrderModel → OrderModel
fetched true o = o
fetched _ o = record o { items = none }

-- The assignments, with `updatedAt` set to the time of the update.
abbrev pub stamped : List OrderSet → Time → OrderModel → OrderModel
stamped sets now o = record (apply_sets sets o) { updated_at = now }

abbrev pub change_order : String → (OrderModel → OrderModel) → Tables → Tables
change_order id f t = record t {
  order = λ j. if id == j then Option.map f (t.order j) else t.order j;
}

abbrev pub insert_order : OrderModel → Tables → Tables
insert_order o t = record t { order = λ j. if o.id == j then some o else t.order j }

abbrev pub add_event : OutboxEventModel → Tables → Tables
add_event e t = record t { events = t.events ++ e ∷ [] }

abbrev pub add_events : List OutboxEventModel → Tables → Tables
add_events es t = record t { events = t.events ++ es }

abbrev pub with_event :
    String → (OutboxEventModel → OutboxEventModel) → OutboxEventModel → OutboxEventModel
with_event id f e = if e.id == id then f e else e

abbrev pub change_event : String → (OutboxEventModel → OutboxEventModel) → Tables → Tables
change_event id f t = record t { events = map (with_event id f) t.events }

abbrev pub with_item : OrderItemModel → OrderModel → OrderModel
with_item i o = record o {
  items = elim o.items [ none ↦ some (i ∷ []) | some is ↦ some (is ++ i ∷ []) ];
}

-- The defaults of the schema, then the optional assignments.
abbrev pub new_order : NewOrder → String → Time → Time → OrderModel
new_order n id created updated =
    record (apply_sets n.params (record {
      id = id;
      order_number = n.order_number;
      user_id = n.user_id;
      user_email = n.user_email;
      status = pending_payment;
      total_amount = n.total_amount;
      shipping_fee = 0;
      shipping_address = none;
      payment_type = none;
      midtrans_transaction_id = none;
      snap_token = none;
      snap_redirect_url = none;
      courier_name = none;
      receipt_number = none;
      paid_at = none;
      expires_at = none;
      created_at = created;
      updated_at = updated;
      items = some [];
    })) { updated_at = updated }

-- A stored event carries what it was created from, and awaits publication.
pub record IsCreatedFrom (n : NewOutboxEvent) (e : OutboxEventModel) : Type 0 where
  pub aggregate_id : e.aggregate_id ≡ n.aggregate_id
  pub topic : e.topic ≡ n.topic
  pub payload : e.payload ≡ n.payload
  pub aggregate_type : e.aggregate_type ≡ n.aggregate_type
  pub status : e.status ≡ pending
  pub retry_count : e.retry_count ≡ 0

-- The stored events of a list of inputs, in its order.
abbrev pub AreCreatedFrom : List NewOutboxEvent → List OutboxEventModel → Type 0
AreCreatedFrom [] [] = Unit
AreCreatedFrom (n ∷ ns) (e ∷ es) = IsCreatedFrom n e × AreCreatedFrom ns es
AreCreatedFrom _ _ = ⊥

pub record IsItemFrom (n : NewOrderItem) (i : OrderItemModel) : Type 0 where
  pub order_id : i.order_id ≡ n.order_id
  pub product_id : i.product_id ≡ n.product_id
  pub variant_id : i.variant_id ≡ n.variant_id
  pub product_name : i.product_name ≡ n.product_name
  pub variant_name : i.variant_name ≡ some n.variant_name
  pub sku : i.sku ≡ n.sku
  pub price : i.price ≡ n.price
  pub quantity : i.quantity ≡ n.quantity
  pub subtotal : i.subtotal ≡ n.subtotal

pub record PrismaLaws (p : Prisma) : Type 0 where
  pub tables : p.State → Tables
  pub row_id :
      (s : p.State) (id : String) (o : OrderModel) → (tables s).order id ≡ some o → o.id ≡ id
  pub find_order_keeps : (k : OrderKey) (s : p.State) → tables (p.find_order k s).1 ≡ tables s
  pub find_order_by_id :
      (id : String) (s : p.State) (o : OrderModel)
      → (p.find_order (by_id id) s).0 ≡ ok (some o)
      → (tables s).order id ≡ some o
  pub find_order_by_number :
      (n : String) (s : p.State) (o : OrderModel)
      → (p.find_order (by_order_number n) s).0 ≡ ok (some o)
      → ((tables s).order o.id ≡ some o) × (o.order_number ≡ n)
  pub find_orders_keeps : (q : OrderQuery) (s : p.State) → tables (p.find_orders q s).1 ≡ tables s
  pub find_orders_sound :
      (q : OrderQuery) (s : p.State) (os : List OrderModel) (o : OrderModel)
      → (p.find_orders q s).0 ≡ ok os
      → Memᴰ o os
      → (r : OrderModel) × ((tables s).order r.id ≡ some r)
        × (matches q.filters r ≡ true)
        × (o ≡ fetched q.with_items r)
  pub find_orders_complete :
      (q : OrderQuery) (s : p.State) (os : List OrderModel) (r : OrderModel)
      → (p.find_orders q s).0 ≡ ok os
      → q.page ≡ none
      → (tables s).order r.id ≡ some r
      → matches q.filters r ≡ true
      → Memᴰ (fetched q.with_items r) os
  pub find_orders_page :
      (q : OrderQuery) (s : p.State) (os : List OrderModel) (page : Page)
      → (p.find_orders q s).0 ≡ ok os
      → q.page ≡ some page
      → length os ≤ pos_part page.take
  pub find_orders_whole :
      (q : OrderQuery) (s : p.State) (os : List OrderModel) (page : Page) (r : OrderModel)
      → (p.find_orders q s).0 ≡ ok os
      → q.page ≡ some page
      → pos_part page.skip ≡ 0
      → length os < pos_part page.take
      → (tables s).order r.id ≡ some r
      → matches q.filters r ≡ true
      → Memᴰ (fetched q.with_items r) os
  pub update_order_failed :
      (id : String) (sets : List OrderSet) (s : p.State) (e : String)
      → (p.update_order id sets s).0 ≡ err e
      → tables (p.update_order id sets s).1 ≡ tables s
  pub update_order_done :
      (id : String) (sets : List OrderSet) (s : p.State) (o : OrderModel)
      → (p.update_order id sets s).0 ≡ ok o
      → (now : Time) × (tables (p.update_order id sets s).1
          ≡ change_order id (stamped sets now) (tables s))
  pub create_order_failed :
      (n : NewOrder) (s : p.State) (e : String)
      → (p.create_order n s).0 ≡ err e
      → tables (p.create_order n s).1 ≡ tables s
  pub create_order_done :
      (n : NewOrder) (s : p.State) (o : OrderModel)
      → (p.create_order n s).0 ≡ ok o
      → ((tables s).order o.id ≡ none)
        × (o ≡ new_order n o.id o.created_at o.updated_at)
        × (tables (p.create_order n s).1 ≡ insert_order o (tables s))
  pub create_order_item_failed :
      (n : NewOrderItem) (s : p.State) (e : String)
      → (p.create_order_item n s).0 ≡ err e
      → tables (p.create_order_item n s).1 ≡ tables s
  pub create_order_item_done :
      (n : NewOrderItem) (s : p.State) (i : OrderItemModel)
      → (p.create_order_item n s).0 ≡ ok i
      → IsItemFrom n i
        × (tables (p.create_order_item n s).1 ≡ change_order n.order_id (with_item i) (tables s))
  pub create_outbox_event_failed :
      (n : NewOutboxEvent) (s : p.State) (e : String)
      → (p.create_outbox_event n s).0 ≡ err e
      → tables (p.create_outbox_event n s).1 ≡ tables s
  pub create_outbox_event_done :
      (n : NewOutboxEvent) (s : p.State) (e : OutboxEventModel)
      → (p.create_outbox_event n s).0 ≡ ok e
      → IsCreatedFrom n e × (tables (p.create_outbox_event n s).1 ≡ add_event e (tables s))
  pub find_outbox_event_keeps :
      (id : String) (s : p.State) → tables (p.find_outbox_event id s).1 ≡ tables s
  pub find_outbox_event_found :
      (id : String) (s : p.State) (e : OutboxEventModel)
      → (p.find_outbox_event id s).0 ≡ ok e
      → Memᴰ e (tables s).events × (e.id ≡ id)
  pub find_outbox_events_keeps :
      (st : OutboxStatus) (n : ℤ) (s : p.State) → tables (p.find_outbox_events st n s).1 ≡ tables s
  pub find_outbox_events_sound :
      (st : OutboxStatus) (n : ℤ) (s : p.State) (es : List OutboxEventModel)
      → (p.find_outbox_events st n s).0 ≡ ok es
      → (length es ≤ pos_part n)
        × ((e : OutboxEventModel) → Memᴰ e es → Memᴰ e (tables s).events × (e.status ≡ st))
  pub update_outbox_event_failed :
      (id : String) (sets : List OutboxSet) (s : p.State) (e : String)
      → (p.update_outbox_event id sets s).0 ≡ err e
      → tables (p.update_outbox_event id sets s).1 ≡ tables s
  pub update_outbox_event_done :
      (id : String) (sets : List OutboxSet) (s : p.State) (e : OutboxEventModel)
      → (p.update_outbox_event id sets s).0 ≡ ok e
      → tables (p.update_outbox_event id sets s).1
        ≡ change_event id (apply_event_sets sets) (tables s)
