-- ===== src/Repository/Orders/Update.antt =====
-- What UpdateOrderStatusWithOutbox of order_repository.go does to the tables, on every branch.
use mathlib.Core.List.{append-nil}
use store_order.Base.{
  Result, ◌⊎◌, inl, inr, Result-cases, String, ◌≡◌, refl, sym, ◌∙◌, ap, Option, none, some, List,
  [], ◌∷◌, ok, err, ◌<>◌, continue-ok, wrapped-ok,
}
use store_order.Schema.{Time, OrderStatus, OrderModel, OutboxEventModel}
use store_order.Prisma.{Prisma, NewOutboxEvent, by_id}
use store_order.Prisma.Tables.{
  Tables, PrismaLaws, change_order, stamped, add_events, AreCreatedFrom,
}
use store_order.Repository.{OutboxCreateInput, PaymentMetadata, ShippingMetadata}
use store_order.Repository.Orders.{
  new_event, update_params, insert_outbox, update_order_status_with_outbox,
}
use store_order.Repository.Orders.Columns.{moved, stamped-moved}

-- the events that an optional outbox entry asks for
abbrev pub asked : String → Option OutboxCreateInput → List NewOutboxEvent
asked id none = []
asked id (some outbox) =
    record {
      aggregate_id = id;
      topic = outbox.topic;
      payload = outbox.payload;
      aggregate_type = outbox.aggregate_type;
    }
    ∷ []

-- `t'` is `t` with one more event for each of the inputs.
abbrev pub Appended : List NewOutboxEvent → Tables → Tables → Type 0
Appended ns t t' = (es : List OutboxEventModel) × AreCreatedFrom ns es × (t' ≡ add_events es t)

pub add_events-nil : (t : Tables) → t ≡ add_events [] t
add_events-nil t = λ i. record t { events = sym (append-nil t.events) i }

module _ (p : Prisma) (l : PrismaLaws p) where
  open l use {tables}

  pub insert_outbox-done :
      (failure id : String) (outbox : Option OutboxCreateInput) (s : p.State)
      → (insert_outbox p failure id outbox s).0 ≡ ok tt
      → Appended (asked id outbox) (tables s) (tables (insert_outbox p failure id outbox s).1)
  unfolding insert_outbox
  insert_outbox-done failure id none s h = ([], tt, add_events-nil (tables s))
  insert_outbox-done failure id (some outbox) s h =
      let (e, made, _, same) = continue-ok _ _ _ h in
      let (from, effect) = l.create_outbox_event_done _ s e (wrapped-ok failure _ made) in
      (e ∷ [], (from, tt), ap tables same ∙ effect)

  insert_outbox_outcome :
      (failure id : String) (outbox : Option OutboxCreateInput) (s : p.State)
      → (((e : String) × ((insert_outbox p failure id outbox s).0 ≡ err e))
          × ((entry : OutboxCreateInput) × (outbox ≡ some entry))
          × (tables (insert_outbox p failure id outbox s).1 ≡ tables s))
        ⊎ ((insert_outbox p failure id outbox s).0 ≡ ok tt)
  unfolding insert_outbox
  insert_outbox_outcome failure id none s = inr refl
  insert_outbox_outcome failure id (some entry) s =
      elim (Result-cases (p.create_outbox_event (new_event id entry) s).0) [
        | inl (e, made) ↦ rw made (inr refl)
        | inr (e, failed) ↦ rw failed (
            inl (
              (failure <> ": " <> e, refl),
              (entry, refl),
              l.create_outbox_event_failed (new_event id entry) s e failed,
            ))
      ]

  module _ (id : String) (status : OrderStatus) (meta : Option PaymentMetadata)
      (shipping : Option ShippingMetadata) (outbox : Option OutboxCreateInput) (s : p.State) where
    -- the tables with the row moved, however the change is written
    change_order-moved :
        (now : Time) (t : Tables)
        → change_order id (stamped (update_params status meta shipping) now) t
          ≡ change_order id (moved status meta shipping now) t
    change_order-moved now t =
        λ i. change_order id (λ o. stamped-moved status meta shipping now o i) t

    pub update-done :
        {r : Option OrderModel}
        → (update_order_status_with_outbox p id status meta shipping outbox s).0 ≡ ok r
        → (now : Time) × Appended
            (asked id outbox)
            (change_order id (moved status meta shipping now) (tables s))
            (tables (update_order_status_with_outbox p id status meta shipping outbox s).1)
    unfolding update_order_status_with_outbox
    update-done h =
        let (o, updated, h, same) = continue-ok _ _ _ h in
        let (u, inserted, h, same') = continue-ok _ _ _ h in
        let (now, effect) = l.update_order_done id _ s o (wrapped-ok _ _ updated) in
        let (es, from, appended) = insert_outbox-done _ id outbox _ inserted in
        let kept = l.find_order_keeps (by_id id) _ in
        (
          now,
          (
            es,
            from,
            ap tables (same ∙ same')
                ∙ kept
                ∙ appended
                ∙ ap (add_events es) (effect ∙ change_order-moved now (tables s)),
          ),
        )

    -- how a call ends: with its result, and the tables before and after
    abbrev pub Outcome : Result (Option OrderModel) → Tables → Tables → Type 0
    Outcome r t t' =
        (((e : String) × (r ≡ err e)) × (t' ≡ t))
        ⊎ ((((e : String) × (r ≡ err e))
              × ((entry : OutboxCreateInput) × (outbox ≡ some entry))
              × ((now : Time) × (t' ≡ change_order id (moved status meta shipping now) t)))
            ⊎ ((now : Time) × Appended (asked id outbox)
                  (change_order id (moved status meta shipping now) t) t'))

    -- There is no transaction, and so there are three outcomes. The call fails and no table has changed;
    -- or it fails, the row is moved and no event is stored, though one was asked for; or the row is
    -- moved and the event, if one was asked for, is stored, which is so wherever the call succeeds.
    pub update-Outcome :
        Outcome
          (update_order_status_with_outbox p id status meta shipping outbox s).0
          (tables s)
          (tables (update_order_status_with_outbox p id status meta shipping outbox s).1)
    unfolding update_order_status_with_outbox
    update-Outcome =
        let sets = update_params status meta shipping in
        let s' = (p.update_order id sets s).1 in
        elim (Result-cases (p.update_order id sets s).0) [
          | inr (e, failed) ↦ rw failed (
              inl (
                ("failed to update order status" <> ": " <> e, refl),
                l.update_order_failed id sets s e failed,
              ))
          | inl (o, updated) ↦
              let (now, effect) = l.update_order_done id sets s o updated in
              let moves = effect ∙ change_order-moved now (tables s) in
              elim (insert_outbox_outcome "failed to insert outbox event" id outbox s') [
                | inl ((e, refused), asks, kept) ↦
                    rw (updated, refused) (inr (inl ((e, refl), asks, (now, kept ∙ moves))))
                | inr inserted ↦
                    let (es, from, appended) = insert_outbox-done _ id outbox s' inserted in
                    rw (updated, inserted)
                      (inr (
                        inr (
                          now,
                          (
                            es,
                            from,
                            l.find_order_keeps (by_id id) _ ∙ appended ∙ ap (add_events es) moves,
                          ),
                        )))
              ]
        ]
