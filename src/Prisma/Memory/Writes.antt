-- ===== src/Prisma/Memory/Writes.antt =====
-- What the writes of the database in memory do to its tables.
use store_order.Base.{
  Bool, true, false, String, ◌≡◌, refl, sym, ◌∙◌, ap, subst, fun_ext, Option, none, some, List,
  Result, ok, err, length, arith, ok_inj,
}
use store_order.Schema.{
  Time, OrderModel, OrderItemModel, OutboxEventModel, OrderSet, OutboxSet, apply_event_sets,
}
use store_order.Prisma.{NewOrder, NewOrderItem, NewOutboxEvent}
use store_order.Prisma.Tables.{
  stamped, new_order, with_item, change_order, insert_order, add_event, change_event, IsItemFrom,
  IsCreatedFrom,
}
use store_order.Prisma.Memory.{
  Memory, row_of, tally, add_row, row_of-change_row, change_rows, create_order, item_of, event_of,
  create_outbox_event, add_event_row, id-apply_sets, created_at-apply_sets, id-stamped,
  id-with_item, update_found, update_order, create_order_item, update_event_found,
  update_outbox_event,
}
use store_order.Prisma.Memory.Rows.{tables}

pub update_found-failed :
    (id : String) (sets : List OrderSet) (m : Memory) (r : Option OrderModel) (e : String)
    → (update_found id sets m r).0 ≡ err e
    → tables (update_found id sets m r).1 ≡ tables m
unfolding update_found
update_found-failed id sets m none e h = refl
update_found-failed id sets m (some o) e h = cc

pub change_rows-tables :
    (id : String) (f : OrderModel → OrderModel) (keeps : (o : OrderModel) → (f o).id ≡ o.id)
    (m : Memory)
    → tables (change_rows id f keeps m) ≡ change_order id f (tables m)
unfolding change_rows
change_rows-tables id f keeps m = λ i. record {
  order = fun_ext (λ j. row_of-change_row id f keeps j m.rows) i;
  events = m.events;
}

pub update_found-done :
    (id : String) (sets : List OrderSet) (m : Memory) (r : Option OrderModel) (o : OrderModel)
    → (update_found id sets m r).0 ≡ ok o
    → (now : Time) × (tables (update_found id sets m r).1
        ≡ change_order id (stamped sets now) (tables m))
unfolding update_found
update_found-done id sets m none o h = cc
update_found-done id sets m (some x) o h =
    (1, change_rows-tables id (stamped sets 1) (id-stamped sets 1) m)

pub add_row-failed :
    (o : OrderModel) (m : Memory) (r : Option OrderModel) (e : row_of o.id m.rows ≡ r) (x : String)
    → (add_row o m r e).0 ≡ err x
    → tables (add_row o m r e).1 ≡ tables m
unfolding add_row
add_row-failed o m (some _) e x h = refl
add_row-failed o m none e x h = cc

pub add_row-done :
    (o : OrderModel) (m : Memory) (r : Option OrderModel) (e : row_of o.id m.rows ≡ r)
    (x : OrderModel)
    → (add_row o m r e).0 ≡ ok x
    → (o ≡ x)
      × (row_of o.id m.rows ≡ none)
      × (tables (add_row o m r e).1 ≡ insert_order o (tables m))
unfolding add_row row_of
add_row-done o m (some _) e x h = cc
add_row-done o m none e x h = (ok_inj h, e, refl)

pub new_order_self :
    (n : NewOrder) (id : String) (created updated : Time)
    → let o = new_order n id created updated in o ≡ new_order n o.id o.created_at o.updated_at
new_order_self n id created updated =
    let o = new_order n id created updated in
    let same_id : o.id ≡ id = id-apply_sets n.params _ in
    let same_time : o.created_at ≡ created = created_at-apply_sets n.params _ in
    sym (
      ap (λ x. new_order n x o.created_at updated) same_id
      ∙ ap (λ t. new_order n id t updated) same_time)

pub create_order-done :
    (n : NewOrder) (m : Memory) (o : OrderModel)
    → (create_order n m).0 ≡ ok o
    → (row_of o.id m.rows ≡ none)
      × (o ≡ new_order n o.id o.created_at o.updated_at)
      × (tables (create_order n m).1 ≡ insert_order o (tables m))
unfolding create_order
create_order-done n m o h =
    let (same, fresh, effect) =
      add_row-done (new_order n (tally (length m.rows)) 0 0) m _ refl o h in
    (
      subst (λ (x : OrderModel). row_of x.id m.rows ≡ none) same fresh,
      subst (λ (x : OrderModel). x ≡ new_order n x.id x.created_at x.updated_at) same
          (new_order_self n (tally (length m.rows)) 0 0),
      effect ∙ ap (λ x. insert_order x (tables m)) same,
    )

pub update_event_found-failed :
    (id : String) (sets : List OutboxSet) (m : Memory) (r : Result OutboxEventModel) (e : String)
    → (update_event_found id sets m r).0 ≡ err e
    → tables (update_event_found id sets m r).1 ≡ tables m
unfolding update_event_found
update_event_found-failed id sets m (err _) e h = refl
update_event_found-failed id sets m (ok _) e h = cc

pub update_event_found-done :
    (id : String) (sets : List OutboxSet) (m : Memory) (r : Result OutboxEventModel)
    (e : OutboxEventModel)
    → (update_event_found id sets m r).0 ≡ ok e
    → tables (update_event_found id sets m r).1 ≡ change_event id (apply_event_sets sets) (tables m)
unfolding update_event_found
update_event_found-done id sets m (err _) e h = cc
update_event_found-done id sets m (ok _) e h = refl

pub update_order-failed :
    (id : String) (sets : List OrderSet) (m : Memory) (e : String)
    → (update_order id sets m).0 ≡ err e
    → tables (update_order id sets m).1 ≡ tables m
unfolding update_order
update_order-failed id sets m e h = update_found-failed id sets m _ e h

pub update_order-done :
    (id : String) (sets : List OrderSet) (m : Memory) (o : OrderModel)
    → (update_order id sets m).0 ≡ ok o
    → (now : Time) × (tables (update_order id sets m).1
        ≡ change_order id (stamped sets now) (tables m))
unfolding update_order
update_order-done id sets m o h = update_found-done id sets m _ o h

pub create_order-failed :
    (n : NewOrder) (m : Memory) (e : String)
    → (create_order n m).0 ≡ err e
    → tables (create_order n m).1 ≡ tables m
unfolding create_order
create_order-failed n m e h = add_row-failed _ m _ refl e h

pub create_order_item-failed :
    (n : NewOrderItem) (m : Memory) (e : String)
    → (create_order_item n m).0 ≡ err e
    → tables (create_order_item n m).1 ≡ tables m
unfolding create_order_item
create_order_item-failed n m e h = cc

pub create_order_item-done :
    (n : NewOrderItem) (m : Memory) (i : OrderItemModel)
    → (create_order_item n m).0 ≡ ok i
    → IsItemFrom n i
      × (tables (create_order_item n m).1 ≡ change_order n.order_id (with_item i) (tables m))
unfolding create_order_item item_of
create_order_item-done n m i h = (
  subst (IsItemFrom n) (ok_inj h) (ground arith),
  change_rows-tables n.order_id (with_item (item_of n "item")) (id-with_item (item_of n "item")) m
      ∙ ap (λ x. change_order n.order_id (with_item x) (tables m)) (ok_inj h),
)

add_event_row-failed :
    (b : Bool) (e : OutboxEventModel) (m : Memory) (x : String)
    → (add_event_row b e m).0 ≡ err x
    → tables (add_event_row b e m).1 ≡ tables m
unfolding add_event_row
add_event_row-failed true e m x h = refl
add_event_row-failed false e m x h = cc

add_event_row-done :
    (b : Bool) (e : OutboxEventModel) (m : Memory) (x : OutboxEventModel)
    → (add_event_row b e m).0 ≡ ok x
    → (e ≡ x) × (tables (add_event_row b e m).1 ≡ add_event e (tables m))
unfolding add_event_row
add_event_row-done true e m x h = cc
add_event_row-done false e m x h = (ok_inj h, refl)

pub create_outbox_event-failed :
    (n : NewOutboxEvent) (m : Memory) (e : String)
    → (create_outbox_event n m).0 ≡ err e
    → tables (create_outbox_event n m).1 ≡ tables m
unfolding create_outbox_event
create_outbox_event-failed n m e h = add_event_row-failed _ _ m e h

pub create_outbox_event-done :
    (n : NewOutboxEvent) (m : Memory) (e : OutboxEventModel)
    → (create_outbox_event n m).0 ≡ ok e
    → IsCreatedFrom n e × (tables (create_outbox_event n m).1 ≡ add_event e (tables m))
unfolding create_outbox_event event_of
create_outbox_event-done n m e h =
    let (same, effect) = add_event_row-done _ _ m e h in
    (subst (IsCreatedFrom n) same (ground arith), effect ∙ ap (λ x. add_event x (tables m)) same)

pub update_outbox_event-failed :
    (id : String) (sets : List OutboxSet) (m : Memory) (e : String)
    → (update_outbox_event id sets m).0 ≡ err e
    → tables (update_outbox_event id sets m).1 ≡ tables m
unfolding update_outbox_event
update_outbox_event-failed id sets m e h = update_event_found-failed id sets m _ e h

pub update_outbox_event-done :
    (id : String) (sets : List OutboxSet) (m : Memory) (e : OutboxEventModel)
    → (update_outbox_event id sets m).0 ≡ ok e
    → tables (update_outbox_event id sets m).1 ≡ change_event id (apply_event_sets sets) (tables m)
unfolding update_outbox_event
update_outbox_event-done id sets m e h = update_event_found-done id sets m _ e h
