-- ===== src/Repository/Orders/Creation.antt =====
-- What CreateOrderWithItemsAndOutbox of order_repository.go stores.
use text.Mathlib.TextPositions.{eq_refl}
use store_order.Base.{
  String, ◌≡◌, ◌≢◌, refl, ◌∙◌, ap, Option, none, some, List, [], ◌∷◌, ◌++◌, ok, continue-ok,
  wrapped-ok, arith, eq_iff,
}
use store_order.Schema.{pending_payment, OrderModel, OrderItemModel, OutboxEventModel}
use store_order.Runtime.{Runtime}
use store_order.Prisma.{Prisma, NewOrder, by_id}
use store_order.Prisma.Tables.{
  Tables, PrismaLaws, change_order, insert_order, with_item, new_order, IsItemFrom, AreCreatedFrom,
  add_events,
}
use store_order.Repository.{OrderItemInput, OrderCreateInput, OutboxCreateInput}
use store_order.Repository.Orders.{
  optional_params, new_item, insert_items, create_order_with_items_and_outbox,
}
use store_order.Repository.Orders.Columns.{row-optional_params}
use store_order.Repository.Orders.Update.{asked, insert_outbox-done}

-- the stored items of an order, in the order of the inputs
abbrev pub AreItemsFrom : String → List OrderItemInput → List OrderItemModel → Type 0
AreItemsFrom id [] [] = Unit
AreItemsFrom id (input ∷ inputs) (item ∷ items) =
    IsItemFrom (new_item id input) item × AreItemsFrom id inputs items
AreItemsFrom id _ _ = ⊥

-- the row with its items
abbrev pub with_items : List OrderItemModel → OrderModel → OrderModel
with_items [] o = o
with_items (i ∷ is) o = with_items is (with_item i o)

abbrev put_items : String → List OrderItemModel → Tables → Tables
put_items id [] t = t
put_items id (i ∷ is) t = put_items id is (change_order id (with_item i) t)

-- what is assigned to the columns of the new row
abbrev pub row_input : Runtime → OrderCreateInput → NewOrder
row_input rt input = record {
  order_number = input.order_number;
  user_id = input.user_id;
  user_email = input.user_email;
  total_amount = input.total_amount;
  params = optional_params rt input;
}

-- `t'` has one order more than `t`, under a new identifier, with its items, and the event that is
-- asked for.
pub record IsCreation (rt : Runtime) (input : OrderCreateInput) (inputs : List OrderItemInput)
    (outbox : Option OutboxCreateInput) (t t' : Tables) : Type 0 where
  pub order : OrderModel
  pub items : List OrderItemModel
  pub stored : List OutboxEventModel
  pub fresh : t.order order.id ≡ none
  pub columns : order ≡ new_order (row_input rt input) order.id order.created_at order.updated_at
  pub unpaid : order.status ≡ pending_payment
  pub from_inputs : AreItemsFrom order.id inputs items
  pub row : t'.order order.id ≡ some (with_items items order)
  pub others : (j : String) → order.id ≢ j → t'.order j ≡ t.order j
  pub from_asked : AreCreatedFrom (asked order.id outbox) stored
  pub events : t'.events ≡ t.events ++ stored

order-put_items_ne :
    (id : String) (its : List OrderItemModel) (t : Tables) (j : String)
    → id ≢ j
    → (put_items id its t).order j ≡ t.order j
order-put_items_ne id [] t j h = refl
order-put_items_ne id (i ∷ is) t j h =
    order-put_items_ne id is (change_order id (with_item i) t) j h ∙ ground (arith, eq_iff id j)

order-put_items :
    (id : String) (its : List OrderItemModel) (t : Tables) (o : OrderModel)
    → t.order id ≡ some o
    → (put_items id its t).order id ≡ some (with_items its o)
order-put_items id [] t o h = h
order-put_items id (i ∷ is) t o h =
    order-put_items id is (change_order id (with_item i) t) (with_item i o)
      (rw (eq_refl id, h) refl)

events-put_items :
    (id : String) (its : List OrderItemModel) (t : Tables) → (put_items id its t).events ≡ t.events
events-put_items id [] t = refl
events-put_items id (i ∷ is) t = events-put_items id is (change_order id (with_item i) t)

module _ (p : Prisma) (l : PrismaLaws p) where
  open l use {tables}

  insert_items-done :
      (id : String) (inputs : List OrderItemInput) (s : p.State)
      → (insert_items p id inputs s).0 ≡ ok tt
      → (its : List OrderItemModel) × AreItemsFrom id inputs its
        × (tables (insert_items p id inputs s).1 ≡ put_items id its (tables s))
  unfolding insert_items
  insert_items-done id [] s h = ([], tt, refl)
  insert_items-done id (input ∷ inputs) s h =
      let (i, made, h, same) = continue-ok _ _ _ h in
      let (from, effect) = l.create_order_item_done (new_item id input) s i (wrapped-ok _ _ made) in
      let (is, froms, effects) = insert_items-done id inputs _ h in
      (i ∷ is, (from, froms), ap tables same ∙ effects ∙ ap (put_items id is) effect)

  -- A call that returns no error has stored one new order, unpaid, with the given columns, an item for each
  -- input in their order, and the event, if one is given; no other row has changed.
  pub create-IsCreation :
      (rt : Runtime) (input : OrderCreateInput) (inputs : List OrderItemInput)
      (outbox : Option OutboxCreateInput) (s : p.State) {r : Option OrderModel}
      → (create_order_with_items_and_outbox p rt input inputs outbox s).0 ≡ ok r
      → IsCreation rt input inputs outbox
          (tables s)
          (tables (create_order_with_items_and_outbox p rt input inputs outbox s).1)
  unfolding create_order_with_items_and_outbox
  create-IsCreation rt input inputs outbox s h =
      let (o, made, h, same) = continue-ok _ _ _ h in
      let (_, inserted, h, same') = continue-ok _ _ _ h in
      let (_, announced, h, same'') = continue-ok _ _ _ h in
      let (fresh, columns, effect) =
        l.create_order_done (row_input rt input) s o (wrapped-ok _ _ made) in
      let (its, froms, put) = insert_items-done o.id inputs _ inserted in
      let (es, from, appended) = insert_outbox-done p l _ o.id outbox _ announced in
      let whole =
        ap tables (same ∙ same' ∙ same'')
        ∙ l.find_order_keeps (by_id o.id) _
        ∙ appended
        ∙ ap (add_events es) (put ∙ ap (put_items o.id its) effect) in
      let base = insert_order o (tables s) in
      record {
        order = o;
        items = its;
        stored = es;
        fresh = fresh;
        columns = columns;
        unpaid =
            ap (λ (o : OrderModel). o.status) columns
            ∙ ap (λ (o : OrderModel). o.status) (row-optional_params rt input _);
        from_inputs = froms;
        row =
            ap (λ (t : Tables). t.order o.id) whole
            ∙ order-put_items o.id its base o (rw (eq_refl o.id) refl);
        others = λ j differs.
            ap (λ (t : Tables). t.order j) whole
            ∙ order-put_items_ne o.id its base j differs
            ∙ ground (arith, eq_iff o.id j);
        from_asked = from;
        events =
            ap (λ (t : Tables). t.events) whole
            ∙ ap (λ e. e ++ es) (events-put_items o.id its base);
      }
