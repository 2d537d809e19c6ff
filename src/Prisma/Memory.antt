-- ===== src/Prisma/Memory.antt =====
-- A database in memory that meets the laws of Tables: the orders newest first, with distinct ids, and
-- the outbox oldest first. The laws are proved in the module below; the witnesses run on it.
pub mod Rows
mod Queries
mod Writes
pub mod Laws
pub mod Updates
use mathlib.Core.Option
use store_order.Base.{
  is_empty, ℕ, zero, suc, String, ◌≡◌, refl, ◌∙◌, Option, none, some, List, [], ◌∷◌, ◌++◌, map,
  Bool, true, false, ◌==◌, Result, ok, err, if◌then◌else◌, length, take, drop, select, pos_part, ℤ,
  ◌<>◌, arith, eq_iff,
}
use store_order.Schema.{
  Time, OrderStatus, OutboxStatus, pending, published, failed, OrderModel, OrderItemModel,
  OutboxEventModel, OrderSet, OutboxSet, apply_set, apply_sets, apply_event_sets,
  same_outbox_status,
}
use store_order.Prisma.{
  Prisma, NewOrder, NewOrderItem, NewOutboxEvent, OrderKey, by_id, by_order_number, Page,
  OrderQuery,
}
use store_order.Prisma.Tables.{matches, fetched, stamped, new_order, with_item, with_event}

-- the row with an id
unfoldable pub row_of : String → List OrderModel → Option OrderModel
row_of id [] = none
row_of id (o ∷ os) = let rest = row_of id os in if o.id == id then some o else rest

pub numbered : String → List OrderModel → Option OrderModel
numbered n [] = none
numbered n (o ∷ os) = let rest = numbered n os in if o.order_number == n then some o else rest

pub change_row : String → (OrderModel → OrderModel) → List OrderModel → List OrderModel
change_row id f [] = []
change_row id f (o ∷ os) = (if o.id == id then f o else o) ∷ change_row id f os

-- No two rows have one id.
abbrev pub IsDistinct : List OrderModel → Type 0
IsDistinct [] = Unit
IsDistinct (o ∷ os) = (row_of o.id os ≡ none) × IsDistinct os

pub record Memory : Type 0 where
  pub rows : List OrderModel
  pub events : List OutboxEventModel
  pub distinct : IsDistinct rows

pub paged : {A : Type 0} → Option Page → List A → List A
paged none xs = xs
paged (some p) xs = take (pos_part p.take) (drop (pos_part p.skip) xs)

-- a new identifier, by the number of rows there are
tally : ℕ → String
tally zero = "#"
tally (suc n) = "#" <> tally n

-- the row that `create_order` stores under the id that it has drawn, if no row has that id
pub add_row :
    (o : OrderModel) (m : Memory) (r : Option OrderModel)
    → row_of o.id m.rows ≡ r
    → Result OrderModel × Memory
add_row o m (some _) e = (err "Unique constraint failed", m)
add_row o m none e =
    (ok o, record { rows = o ∷ m.rows; events = m.events; distinct = (e, m.distinct) })

module _ (id : String) (f : OrderModel → OrderModel)
    (keeps : (o : OrderModel) → (f o).id ≡ o.id) where
  row_of-change_row :
      (j : String) (os : List OrderModel)
      → row_of j (change_row id f os)
        ≡ (if id == j then Option.map f (row_of j os) else row_of j os)
  unfolding row_of change_row
  row_of-change_row j [] = ground arith
  row_of-change_row j (o ∷ os) = ground (
    arith,
    row_of-change_row j os,
    eq_iff o.id id,
    eq_iff o.id j,
    eq_iff id j,
    eq_iff (f o).id j,
    keeps o,
  )

  change_row-none :
      (j : String) (os : List OrderModel)
      → row_of j os ≡ none
      → row_of j (change_row id f os) ≡ none
  change_row-none j os h = rw row_of-change_row (ground arith)

  pub change_row-IsDistinct :
      (os : List OrderModel) → IsDistinct os → IsDistinct (change_row id f os)
  unfolding change_row
  change_row-IsDistinct [] d = tt
  change_row-IsDistinct (o ∷ os) d =
      (ground (arith, keeps o, change_row-none o.id os d.0), change_row-IsDistinct os d.1)

  pub change_rows : Memory → Memory
  change_rows m = record {
    rows = change_row id f m.rows;
    events = m.events;
    distinct = change_row-IsDistinct m.rows m.distinct;
  }

id-apply_set : (p : OrderSet) (o : OrderModel) → (apply_set p o).id ≡ o.id
id-apply_set p o = ground arith

created_at-apply_set : (p : OrderSet) (o : OrderModel) → (apply_set p o).created_at ≡ o.created_at
created_at-apply_set p o = ground arith

id-apply_sets : (sets : List OrderSet) (o : OrderModel) → (apply_sets sets o).id ≡ o.id
id-apply_sets [] o = refl
id-apply_sets (p ∷ ps) o = id-apply_sets ps (apply_set p o) ∙ id-apply_set p o

created_at-apply_sets :
    (sets : List OrderSet) (o : OrderModel) → (apply_sets sets o).created_at ≡ o.created_at
created_at-apply_sets [] o = refl
created_at-apply_sets (p ∷ ps) o =
    created_at-apply_sets ps (apply_set p o) ∙ created_at-apply_set p o

unfoldable pub create_order : NewOrder → Memory → Result OrderModel × Memory
unfolding add_row tally row_of
create_order n m = add_row (new_order n (tally (length m.rows)) 0 0) m _ refl

item_of : NewOrderItem → String → OrderItemModel
item_of n id = record {
  id = id;
  order_id = n.order_id;
  product_id = n.product_id;
  variant_id = n.variant_id;
  product_name = n.product_name;
  variant_name = some n.variant_name;
  sku = n.sku;
  price = n.price;
  quantity = n.quantity;
  subtotal = n.subtotal;
}

event_of : NewOutboxEvent → String → OutboxEventModel
event_of n id = record {
  id = id;
  aggregate_type = n.aggregate_type;
  aggregate_id = n.aggregate_id;
  topic = n.topic;
  payload = n.payload;
  status = pending;
  retry_count = 0;
  error_message = none;
  created_at = 0;
  published_at = none;
}

-- An event without a topic is refused.
pub add_event_row : Bool → OutboxEventModel → Memory → Result OutboxEventModel × Memory
add_event_row true e m = (err "Event without a topic.", m)
add_event_row false e m =
    (ok e, record { rows = m.rows; events = m.events ++ e ∷ []; distinct = m.distinct })

unfoldable pub create_outbox_event : NewOutboxEvent → Memory → Result OutboxEventModel × Memory
unfolding event_of tally add_event_row
create_outbox_event n m = add_event_row (is_empty n.topic) (event_of n (tally (length m.events))) m

unfoldable pub find_order : OrderKey → Memory → Result (Option OrderModel) × Memory
unfolding row_of numbered
find_order (by_id id) m = (ok (row_of id m.rows), m)
find_order (by_order_number n) m = (ok (numbered n m.rows), m)

unfoldable pub find_orders : OrderQuery → Memory → Result (List OrderModel) × Memory
unfolding paged
find_orders q m =
    (ok (map (fetched q.with_items) (paged q.page (select (matches q.filters) m.rows))), m)

pub id-stamped :
    (sets : List OrderSet) (now : Time) (o : OrderModel) → (stamped sets now o).id ≡ o.id
id-stamped sets now o = id-apply_sets sets o

pub id-with_item : (i : OrderItemModel) (o : OrderModel) → (with_item i o).id ≡ o.id
id-with_item i o = refl

-- Every update is stamped with the time 1.
pub update_found : String → List OrderSet → Memory → Option OrderModel → Result OrderModel × Memory
update_found id sets m none = (err "Record to update not found.", m)
update_found id sets m (some o) =
    (ok (stamped sets 1 o), change_rows id (stamped sets 1) (id-stamped sets 1) m)

unfoldable pub update_order : String → List OrderSet → Memory → Result OrderModel × Memory
unfolding update_found change_rows change_row row_of
update_order id sets m = update_found id sets m (row_of id m.rows)

unfoldable pub create_order_item : NewOrderItem → Memory → Result OrderItemModel × Memory
unfolding change_rows change_row item_of
create_order_item n m =
    let i = item_of n "item" in (ok i, change_rows n.order_id (with_item i) (id-with_item i) m)

pub event_with : String → List OutboxEventModel → Result OutboxEventModel
event_with id [] = err "Record not found."
event_with id (e ∷ es) = let rest = event_with id es in if e.id == id then ok e else rest

unfoldable pub find_outbox_event : String → Memory → Result OutboxEventModel × Memory
unfolding event_with
find_outbox_event id m = (event_with id m.events, m)

unfoldable pub find_outbox_events :
    OutboxStatus → ℤ → Memory → Result (List OutboxEventModel) × Memory
find_outbox_events st n m =
    (ok (take (pos_part n) (select (λ e. same_outbox_status e.status st) m.events)), m)

pub update_event_found :
    String → List OutboxSet → Memory → Result OutboxEventModel → Result OutboxEventModel × Memory
update_event_found id sets m (err e) = (err e, m)
update_event_found id sets m (ok e) = (
  ok (apply_event_sets sets e),
  record {
    rows = m.rows;
    events = map (with_event id (apply_event_sets sets)) m.events;
    distinct = m.distinct;
  },
)

unfoldable pub update_outbox_event :
    String → List OutboxSet → Memory → Result OutboxEventModel × Memory
unfolding update_event_found event_with
update_outbox_event id sets m = update_event_found id sets m (event_with id m.events)

abbrev pub memory : Prisma
memory = record {
  State = Memory;
  create_order = create_order;
  create_order_item = create_order_item;
  create_outbox_event = create_outbox_event;
  find_order = find_order;
  find_orders = find_orders;
  update_order = update_order;
  find_outbox_event = find_outbox_event;
  find_outbox_events = find_outbox_events;
  update_outbox_event = update_outbox_event;
}

-- Opens the queries, where a run on this database is computed.
unfoldable pub steps : Prisma
unfolding create_order create_order_item create_outbox_event find_order find_orders update_order
    find_outbox_event find_outbox_events update_outbox_event row_of
steps = memory
