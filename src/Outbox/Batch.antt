-- ===== src/Outbox/Batch.antt =====
-- processBatch of internal/outbox/worker.go, round by round, and over any number of ticks.
use store_order.Base.{
  ◌≡◌, refl, sym, subst, List, [], ◌∷◌, inl, inr, Result, ok, err, wrapped-ok, Memᴰ,
}
use store_order.Schema.{Time, OutboxEventModel, apply_event_sets, pending}
use store_order.Prisma.{Prisma}
use store_order.Prisma.Tables.{Tables, PrismaLaws, change_event}
use store_order.Repository.Outbox.{get_pending_events, published_params, retry_params}
use store_order.Outbox.{
  KafkaWriter, Worker, message_of, publish, record_outcome, process_events, process_fetched,
  process_batch,
}
use store_order.Outbox.Delivery.{
  WriterLaws, IsKeyed, IsDelivered, Holds, Assigns, KeepsMessage, change_event-IsKeyed,
  change_event-Holds, published-KeepsMessage, retry-KeepsMessage, mark-IsDelivered,
  retry-IsDelivered, mark_event_published-Assigns, increment_event_retry-Assigns,
}

module _ (p : Prisma) (w : KafkaWriter) (clock : OutboxEventModel → Time) (l : PrismaLaws p)
    (k : WriterLaws w) where
  open l use {tables}

  -- What holds between two rounds: no two events share an id, and what is marked is in the log.
  abbrev pub IsSound : Tables → w.State → Type 0
  IsSound t b = IsKeyed t × IsDelivered w k t b

  -- A round: soundness goes on, and so does the presence of every event of the batch.
  abbrev Goes : Tables → Tables → w.State → Type 0
  Goes t t' b = IsSound t' b × ((e : OutboxEventModel) → Holds e t → Holds e t')

  assigned-Goes :
      (event : OutboxEventModel) (sets : List _) (keeps : KeepsMessage sets) (t t' : Tables)
      (b : w.State)
      → IsSound t b
      → (IsDelivered w k t b → IsDelivered w k (change_event event.id (apply_event_sets sets) t) b)
      → Assigns event sets t t'
      → Goes t t' b
  assigned-Goes event sets keeps t t' b (keyed, delivered) step (inl same) =
      subst (λ x. Goes t x b) (sym same) ((keyed, delivered), λ e h. h)
  assigned-Goes event sets keeps t t' b (keyed, delivered) step (inr same) =
      subst (λ x. Goes t x b) (sym same)
        (
          (change_event-IsKeyed event.id sets keeps t keyed, step delivered),
          λ e h. change_event-Holds event.id sets keeps e t h,
        )

  publish-keeps :
      (event : OutboxEventModel) (t : Tables) (b : w.State)
      → IsDelivered w k t b
      → IsDelivered w k t (publish w (message_of event) b).1
  unfolding publish
  publish-keeps event t b delivered e m st =
      k.keeps (message_of e) (message_of event) b (delivered e m st)

  publish-Logged :
      (event : OutboxEventModel) (b : w.State)
      → (publish w (message_of event) b).0 ≡ ok tt
      → k.Logged (message_of event) (publish w (message_of event) b).1
  unfolding publish
  publish-Logged event b h = k.acknowledged (message_of event) b (wrapped-ok _ _ h)

  record_outcome-Goes :
      (event : OutboxEventModel) (r : Result (Unit {0})) (s : p.State) (b : w.State)
      → (r ≡ ok tt → k.Logged (message_of event) b)
      → Holds event (tables s)
      → IsSound (tables s) b
      → Goes (tables s) (tables (record_outcome p w clock event r s)) b
  record_outcome-Goes event (ok tt) s b logged here sound =
      let now = clock event in
      assigned-Goes event (published_params now) (published-KeepsMessage now) _ _ b sound
        (mark-IsDelivered w k event now (tables s) b sound.0 here (logged refl))
        (mark_event_published-Assigns p l event now s)
  record_outcome-Goes event (err e) s b logged here sound =
      let (n, assigned) = increment_event_retry-Assigns p l event e s in
      assigned-Goes event (retry_params n e) (retry-KeepsMessage n e) _ _ b sound
        (retry-IsDelivered w k event n e (tables s) b) assigned

  process_events-IsSound :
      (events : List OutboxEventModel) (s : p.State) (b : w.State)
      → ((e : OutboxEventModel) → Memᴰ e events → Holds e (tables s))
      → IsSound (tables s) b
      → IsSound
          (tables (process_events p w clock events (s, b)).0)
          (process_events p w clock events (s, b)).1
  process_events-IsSound [] s b here sound = sound
  process_events-IsSound (event ∷ events) s b here sound =
      let r = publish w (message_of event) b in
      let (sound', goes) =
        record_outcome-Goes event r.0 s r.1 (publish-Logged event b) (here event (Memᴰ.head refl))
          (sound.0, publish-keeps event (tables s) b sound.1) in
      process_events-IsSound events (record_outcome p w clock event r.0 s) r.1
        (λ e m. goes e (here e (Memᴰ.tail m))) sound'

  -- A tick of the worker marks no event as published whose message the broker has not taken: if every
  -- event that is marked is in the broker's log and no two events have one id, this is so after it,
  -- whatever fails on the way.
  pub process_batch-IsSound :
      (worker : Worker) (s : p.State) (b : w.State)
      → IsSound (tables s) b
      → IsSound
          (tables (process_batch p w clock worker (s, b)).0)
          (process_batch p w clock worker (s, b)).1
  unfolding process_batch get_pending_events
  process_batch-IsSound worker s b sound = go (get_pending_events p worker.batch_size s).0 refl
    where
      s' : p.State
      s' = (get_pending_events p worker.batch_size s).1

      kept : tables s' ≡ tables s
      kept = l.find_outbox_events_keeps _ _ s

      sound' : IsSound (tables s') b
      sound' = subst (λ t. IsSound t b) (sym kept) sound

      go :
          (r : Result (List OutboxEventModel))
          → (get_pending_events p worker.batch_size s).0 ≡ r
          → IsSound
              (tables (process_fetched p w clock r (s', b)).0)
              (process_fetched p w clock r (s', b)).1
      go (err e) h = sound'
      go (ok events) h =
          process_events-IsSound events s' b
            (λ e m. (
              e,
              subst (λ t. Memᴰ e t.events) (sym kept)
                  ((l.find_outbox_events_sound pending _ s events h).1 e m).0,
              refl,
              refl,
            ))
            sound'
