-- ===== src/Repository/Orders/Changes.antt =====
-- What the methods of order_repository.go do to the stored orders on every path, errors included. The
-- relation is any on rows that the statements of the method keep to.
use store_order.Base.{
  ◌>>◌, ◌<>◌, length, String, ◌≡◌, refl, sym, ◌∙◌, subst, Option, none, some, List, [], ◌∷◌, ok,
  wrapped, Memᴰ, ℤ, Action, continue,
}
use store_order.Schema.{Time, OrderModel, OrderItemModel, OrderStatus, OrderSet}
use store_order.Prisma.{Prisma, by_id, user_id_equals, NewOrder}
use store_order.Prisma.Tables.{PrismaLaws, stamped, with_item, Tables}
use store_order.Prisma.Changes.{
  IsPreorder, Changes, Changes_refl, find_order-Within, find_orders-Within, update_order-Within,
  create_order-Within, create_order_item-Within, create_outbox_event-Within, continue-Within,
}
use store_order.Runtime.{Runtime}
use store_order.Repository.Orders.Loops.{some_inj}
use store_order.Repository.{
  OrderItemInput, OrderCreateInput, OutboxCreateInput, PaymentMetadata, ShippingMetadata,
}
use store_order.Repository.Orders.{
  insert_items, insert_outbox, get_order_by_id, create_order_with_items_and_outbox, new_item,
  update_order_status_with_outbox, update_params, insert_events, update_each, with_total,
  list_orders_by_user_id, page_where, all_where, new_event, default_type, optional_params,
}

module _ (P : OrderModel → OrderModel → Type 0) (pre : IsPreorder P) (p : Prisma)
    (l : PrismaLaws p) where
  open l use {tables}

  abbrev Within : {A : Type 0} → Action p.State A → p.State → Type 0
  Within m s = Changes P (tables s) (tables (m s).1)

  pub insert_outbox-Within :
      (failure id : String) (outbox : Option OutboxCreateInput) (s : p.State)
      → Within (insert_outbox p failure id outbox) s
  unfolding insert_outbox
  insert_outbox-Within failure id none s = Changes_refl P pre (tables s)
  insert_outbox-Within failure id (some outbox) s =
      let query = p.create_outbox_event (new_event id outbox) s in
      continue-Within P pre p l (wrapped failure query.0) (λ _ s. (ok tt, s)) s query.1
        (create_outbox_event-Within P pre p l (new_event id outbox) s)
        λ a e. Changes_refl P pre (tables query.1)

  pub insert_events-Within :
      (events : List OutboxCreateInput) (s : p.State) → Within (insert_events p events) s
  unfolding insert_events
  insert_events-Within [] s = Changes_refl P pre (tables s)
  insert_events-Within (outbox ∷ rest) s =
      let n = new_event outbox.aggregate_id (default_type outbox) in
      let query = p.create_outbox_event n s in
      continue-Within P pre p l
        (wrapped ("failed to persist cancellation outbox event for order " <> outbox.aggregate_id)
          query.0)
        (λ _. insert_events p rest) s query.1 (create_outbox_event-Within P pre p l n s)
        λ a e. insert_events-Within rest query.1

  pub update_order_status-Within :
      (id : String) (status : OrderStatus) (meta : Option PaymentMetadata)
      (shipping : Option ShippingMetadata) (outbox : Option OutboxCreateInput) (s : p.State)
      → ((o : OrderModel) (now : Time)
          → (tables s).order id ≡ some o
          → P o (stamped (update_params status meta shipping) now o))
      → Within (update_order_status_with_outbox p id status meta shipping outbox) s
  unfolding update_order_status_with_outbox get_order_by_id
  update_order_status-Within id status meta shipping outbox s h =
      let query = p.update_order id (update_params status meta shipping) s in
      let announce = insert_outbox p "failed to insert outbox event" id outbox query.1 in
      continue-Within P pre p l (wrapped "failed to update order status" query.0)
        (λ _ s'.
          continue (insert_outbox p "failed to insert outbox event" id outbox s').0
            (λ _. get_order_by_id p id)
            (insert_outbox p "failed to insert outbox event" id outbox s').1)
        s query.1 (update_order-Within P pre p l id (update_params status meta shipping) s h)
        λ _ _.
          continue-Within P pre p l announce.0 (λ _. get_order_by_id p id) query.1 announce.1
            (insert_outbox-Within "failed to insert outbox event" id outbox query.1)
            λ _ _. find_order-Within P pre p l (by_id id) announce.1

  pub list_orders-Within :
      (user_id : String) (limit offset : ℤ) (s : p.State)
      → Within (list_orders_by_user_id p user_id limit offset) s
  unfolding list_orders_by_user_id with_total
  list_orders-Within user_id limit offset s =
      let filters = user_id_equals user_id ∷ [] in
      let query = p.find_orders (page_where filters limit offset) s in
      continue-Within P pre p l query.0 (λ orders. with_total p filters orders) s query.1
        (find_orders-Within P pre p l (page_where filters limit offset) s)
        λ orders _.
          continue-Within P pre p l (p.find_orders (all_where filters) query.1).0
            (λ total s'. (ok (orders, length total), s')) query.1
            (p.find_orders (all_where filters) query.1).1
            (find_orders-Within P pre p l (all_where filters) query.1)
            λ total _. Changes_refl P pre (tables (p.find_orders (all_where filters) query.1).1)

  -- A new order with its line items, where the relation allows for items.
  module _ (itemised : (o : OrderModel) (i : OrderItemModel) → P o (with_item i o)) where
    insert_items-Within :
        (order_id : String) (items : List OrderItemInput) (s : p.State)
        → Within (insert_items p order_id items) s
    unfolding insert_items
    insert_items-Within order_id [] s = Changes_refl P pre (tables s)
    insert_items-Within order_id (item ∷ items) s =
        let query = p.create_order_item (new_item order_id item) s in
        continue-Within P pre p l (wrapped "failed to insert order item" query.0)
          (λ _. insert_items p order_id items) s query.1
          (create_order_item-Within P pre p l (new_item order_id item) s λ o i _. itemised o i)
          λ _ _. insert_items-Within order_id items query.1

    pub create_order-with_items-Within :
        (rt : Runtime) (input : OrderCreateInput) (items : List OrderItemInput)
        (outbox : Option OutboxCreateInput) (s : p.State)
        → Within (create_order_with_items_and_outbox p rt input items outbox) s
    unfolding create_order_with_items_and_outbox get_order_by_id
    create_order-with_items-Within rt input items outbox s =
        let n : NewOrder = record {
          order_number = input.order_number;
          user_id = input.user_id;
          user_email = input.user_email;
          total_amount = input.total_amount;
          params = optional_params rt input;
        } in
        let failure : String = "failed to insert initial outbox event" in
        let query = p.create_order n s in
        continue-Within P pre p l (wrapped "failed to insert order" query.0)
          (λ created.
            insert_items p created.id items
            >> (insert_outbox p failure created.id outbox >> get_order_by_id p created.id))
          s query.1 (create_order-Within P pre p l n s)
          λ created _.
            let filled = insert_items p created.id items query.1 in
            continue-Within P pre p l filled.0
              (λ _. insert_outbox p failure created.id outbox >> get_order_by_id p created.id)
              query.1 filled.1 (insert_items-Within created.id items query.1)
              λ _ _.
                let announce = insert_outbox p failure created.id outbox filled.1 in
                continue-Within P pre p l announce.0 (λ _. get_order_by_id p created.id) filled.1
                  announce.1 (insert_outbox-Within failure created.id outbox filled.1)
                  λ _ _. find_order-Within P pre p l (by_id created.id) announce.1

  -- The loop of the two clean-ups: `Touches r st` says that the row r may be assigned what an order
  -- that was read with the status st is assigned.
  module _ (sets : OrderStatus → List OrderSet) (failure : OrderModel → String)
      (Touches : OrderModel → OrderStatus → Type 0)
      (touched : (r : OrderModel) (st : OrderStatus) (now : Time)
        → Touches r st
        → P r (stamped (sets st) now r))
      (keeps : (r r' : OrderModel) (st : OrderStatus) → P r r' → Touches r st → Touches r' st) where
    abbrev pub IsReady : Tables → OrderModel → Type 0
    IsReady t o = (r : OrderModel) × (t.order o.id ≡ some r) × Touches r o.status

    IsReady-Changes : {t t' : Tables} (o : OrderModel) → Changes P t t' → IsReady t o → IsReady t' o
    IsReady-Changes o c (r, here, h) =
        let (r', there, k) = c.row o.id r here in (r', there, keeps r r' o.status k h)

    pub update_each-Within :
        (os : List OrderModel) (s : p.State)
        → ((o : OrderModel) → Memᴰ o os → IsReady (tables s) o)
        → Within (update_each p failure sets os) s
    unfolding update_each
    update_each-Within [] s ready = Changes_refl P pre (tables s)
    update_each-Within (o ∷ os) s ready =
        let query = p.update_order o.id (sets o.status) s in
        let (r, here, h) = ready o (Memᴰ.head refl) in
        let c : Changes P (tables s) (tables query.1) =
          update_order-Within P pre p l o.id (sets o.status) s λ x now row.
            touched x o.status now
              (subst (λ y. Touches y o.status) (some_inj (sym here ∙ row)) h) in
        continue-Within P pre p l (wrapped (failure o) query.0) (λ _. update_each p failure sets os)
          s query.1 c
          λ _ _. update_each-Within os query.1 λ x m. IsReady-Changes x c (ready x (Memᴰ.tail m))
