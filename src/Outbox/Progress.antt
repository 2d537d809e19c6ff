-- ===== src/Outbox/Progress.antt =====
-- What a tick of the worker of internal/outbox/worker.go achieves when nothing fails.
use store_order.Base.{
  String, ◌≡◌, refl, sym, subst, List, [], ◌∷◌, ok, Memᴰ, map-Memᴰ, arith, eq_iff,
}
use store_order.Schema.{Time, OutboxEventModel, OutboxSet, published, pending, apply_event_sets}
use store_order.Prisma.{Prisma}
use store_order.Prisma.Tables.{Tables, PrismaLaws, change_event, with_event}
use store_order.Repository.Outbox.{get_pending_events, mark_event_published, published_params}
use store_order.Outbox.{
  Message, KafkaWriter, Worker, message_of, publish, process_event, process_events, process_batch,
}

-- the outbox has an event with the identifier
abbrev pub Has : String → Tables → Type 0
Has id t = (e : OutboxEventModel) × Memᴰ e t.events × (e.id ≡ id)

-- the outbox has it as published
abbrev pub IsPublished : String → Tables → Type 0
IsPublished id t = (e : OutboxEventModel) × Memᴰ e t.events × (e.id ≡ id) × (e.status ≡ published)

module _ (id : String) (now : Time) (t : Tables) where
  abbrev marked : Tables
  marked = change_event id (apply_event_sets (published_params now)) t

  abbrev mark : OutboxEventModel → OutboxEventModel
  mark = with_event id (apply_event_sets (published_params now))

  marked-Has : (j : String) → Has j t → Has j marked
  marked-Has j (e, m, same) = (mark e, map-Memᴰ mark t.events m, ground (arith, same))

  marked-IsPublished : (j : String) → IsPublished j t → IsPublished j marked
  marked-IsPublished j (e, m, same, done) =
      (mark e, map-Memᴰ mark t.events m, ground (arith, same), ground (arith, done))

  marked_self-IsPublished : Has id t → IsPublished id marked
  marked_self-IsPublished (e, m, same) =
      (mark e, map-Memᴰ mark t.events m, ground (arith, same), ground (arith, same, eq_iff e.id id))

listed-IsPublished :
    (event : OutboxEventModel) (events : List OutboxEventModel) (t : Tables)
    → IsPublished event.id t
    → ((x : OutboxEventModel) → Memᴰ x events → IsPublished x.id t)
    → (e : OutboxEventModel) → Memᴰ e (event ∷ events)
    → IsPublished e.id t
listed-IsPublished event events t here rest e (Memᴰ.head same) =
    subst (λ (x : OutboxEventModel). IsPublished x.id t) (sym same) here
listed-IsPublished event events t here rest e (Memᴰ.tail m) = rest e m

module _ (p : Prisma) (w : KafkaWriter) (clock : OutboxEventModel → Time) (l : PrismaLaws p)
    (accepts : (m : Message) (b : w.State) → (w.write_messages m b).0 ≡ ok tt)
    (updates : (id : String) (sets : List OutboxSet) (s : p.State)
      → Has id (l.tables s)
      → (e : OutboxEventModel) × ((p.update_outbox_event id sets s).0 ≡ ok e)) where
  open l use {tables}

  publish-accepted :
      (event : OutboxEventModel) (b : w.State) → (publish w (message_of event) b).0 ≡ ok tt
  unfolding publish
  publish-accepted event b = rw accepts refl

  mark_event_published-marked :
      (event : OutboxEventModel) (s : p.State)
      → Has event.id (tables s)
      → tables (mark_event_published p event.id (clock event) s).1
        ≡ marked event.id (clock event) (tables s)
  unfolding mark_event_published
  mark_event_published-marked event s here =
      let (e, h) = updates event.id (published_params (clock event)) s here in
      rw h (l.update_outbox_event_done _ _ s e h)

  process_event-marked :
      (event : OutboxEventModel) (s : p.State) (b : w.State)
      → Has event.id (tables s)
      → tables (process_event p w clock event (s, b)).0 ≡ marked event.id (clock event) (tables s)
  process_event-marked event s b here =
      rw publish-accepted (mark_event_published-marked event s here)

  process_events-IsPublished :
      (events : List OutboxEventModel) (s : p.State) (b : w.State)
      → ((e : OutboxEventModel) → Memᴰ e events → Has e.id (tables s))
      → ((j : String)
          → IsPublished j (tables s)
          → IsPublished j (tables (process_events p w clock events (s, b)).0))
        × ((e : OutboxEventModel)
            → Memᴰ e events
            → IsPublished e.id (tables (process_events p w clock events (s, b)).0))
  process_events-IsPublished [] s b here = (λ j h. h, λ e m. elim m [ ])
  process_events-IsPublished (event ∷ events) s b here =
      let now = clock event in
      let found = here event (Memᴰ.head refl) in
      let step = process_event-marked event s b found in
      let world = process_event p w clock event (s, b) in
      let (keeps, rest) = process_events-IsPublished events world.0 world.1 (λ e m.
        subst (Has e.id) (sym step)
          (marked-Has event.id now (tables s) e.id (here e (Memᴰ.tail m)))) in
      (
        λ j h.
            keeps j
              (subst (IsPublished j) (sym step) (marked-IsPublished event.id now (tables s) j h)),
        listed-IsPublished event events (tables (process_events p w clock events world).0)
            (keeps event.id (
              subst (IsPublished event.id) (sym step)
                (marked_self-IsPublished event.id now (tables s) found)))
            rest,
      )

  -- Where the broker takes every message and no update of a stored event fails, a tick whose query
  -- succeeds publishes its whole batch: each event that it has read is in the outbox as published.
  pub process_batch-IsPublished :
      (worker : Worker) (s : p.State) (b : w.State) {events : List OutboxEventModel}
      → (get_pending_events p worker.batch_size s).0 ≡ ok events
      → (e : OutboxEventModel) → Memᴰ e events
      → IsPublished e.id (tables (process_batch p w clock worker (s, b)).0)
  unfolding process_batch get_pending_events
  process_batch-IsPublished worker s b {events} h e m =
      let kept = l.find_outbox_events_keeps _ _ s in
      rw h (
        (process_events-IsPublished events _ b (λ x n. (
          x,
          subst (λ t. Memᴰ x t.events) (sym kept)
              ((l.find_outbox_events_sound pending _ s events h).1 x n).0,
          refl,
        ))).1
          e m)
