-- ===== src/Scenarios/Publishing.antt =====
-- internal/outbox/worker.go with an outbox of two events and a broker that refuses one topic.
use store_order.Base.{
  ℤ, String, ◌≡◌, ◌≤◌, refl, none, List, [], ◌∷◌, Bool, true, false, eq_iff, sym, ◌∙◌, ap, subst,
  Result, ok, err, if◌then◌else◌, ◌==◌, Memᴰ, pos,
}
use store_order.Schema.{OutboxEventModel, pending, published}
use store_order.Prisma.Memory.{memory, Memory, steps}
use store_order.Prisma.Memory.Rows.{tables}
use store_order.Prisma.Memory.Laws.{memory_laws}
use store_order.Repository.Outbox.{increment_event_retry, get_pending_events}
use store_order.Outbox.{Message, KafkaWriter, Worker, message_of, process_batch, new_worker}
use store_order.Outbox.Delivery.{WriterLaws}
use store_order.Outbox.Batch.{IsSound, process_batch-IsSound}
use store_order.Outbox.Progress.{IsPublished, process_batch-IsPublished}
use store_order.Prisma.Memory.Updates.{update_outbox_event-ok}
use store_order.Outbox.Retries.{increment_event_retry-done, retried}
use store_order.Scenarios.Fixtures.{shop}

abbrev answered : Bool → Message → List Message → Result (Unit {0}) × List Message
answered refused m log = if refused then (err "unknown topic", log) else (ok tt, m ∷ log)

abbrev writer : KafkaWriter
writer = record {
  State = List Message;
  write_messages = λ m log. answered (m.topic == "down") m log;
}

answered-Memᴰ :
    (refused : Bool) (m n : Message) (log : List Message)
    → Memᴰ m log
    → Memᴰ m (answered refused n log).1
answered-Memᴰ true m n log h = h
answered-Memᴰ false m n log h = Memᴰ.tail h

answered-logged :
    (refused : Bool) (m : Message) (log : List Message)
    → (answered refused m log).0 ≡ ok tt
    → Memᴰ m (answered refused m log).1
answered-logged true m log h = cc
answered-logged false m log h = Memᴰ.head refl

abbrev writer_laws : WriterLaws writer
writer_laws = record {
  Logged = λ m log. Memᴰ m log;
  keeps = λ m n log h. answered-Memᴰ (n.topic == "down") m n log h;
  acknowledged = λ m log h. answered-logged (m.topic == "down") m log h;
}

abbrev event : OutboxEventModel
event = record {
  id = "e1";
  aggregate_type = "ORDER";
  aggregate_id = "o1";
  topic = "order.events";
  payload = "paid";
  status = pending;
  retry_count = 0;
  error_message = none;
  created_at = 0;
  published_at = none;
}

-- An event that has failed ten times.
abbrev stuck : OutboxEventModel
stuck = record event { id = "e2"; topic = "down"; retry_count = 10 }

abbrev outbox : Memory
outbox = record { rows = shop.rows; events = event ∷ stuck ∷ []; distinct = shop.distinct }

abbrev id_of : OutboxEventModel → String
id_of e = e.id

TrueOf : Bool → Type 0
TrueOf true = Unit
TrueOf false = ⊥

apart : ¬ (event.id ≡ stuck.id)
unfolding TrueOf
apart h = subst TrueOf (sym ((eq_iff event.id stuck.id).1 h)) tt

outbox-IsSound : IsSound memory writer (λ e. 3) memory_laws writer_laws (tables outbox) []
outbox-IsSound = (keyed, unpublished)
  where
    keyed :
        (d e : OutboxEventModel)
        → Memᴰ d (event ∷ stuck ∷ [])
        → Memᴰ e (event ∷ stuck ∷ [])
        → d.id ≡ e.id
        → d ≡ e
    keyed d e (Memᴰ.head a) (Memᴰ.head b) h = cc
    keyed d e (Memᴰ.head a) (Memᴰ.tail (Memᴰ.head b)) h =
        absurd (apart (sym (ap id_of a) ∙ h ∙ ap id_of b))
    keyed d e (Memᴰ.tail (Memᴰ.head a)) (Memᴰ.head b) h =
        absurd (apart (sym (ap id_of b) ∙ sym h ∙ ap id_of a))
    keyed d e (Memᴰ.tail (Memᴰ.head a)) (Memᴰ.tail (Memᴰ.head b)) h = cc
    keyed d e (Memᴰ.head a) (Memᴰ.tail (Memᴰ.tail n)) h = elim n [ ]
    keyed d e (Memᴰ.tail (Memᴰ.head a)) (Memᴰ.tail (Memᴰ.tail n)) h = elim n [ ]
    keyed d e (Memᴰ.tail (Memᴰ.tail m)) _ h = elim m [ ]

    unpublished :
        (e : OutboxEventModel)
        → Memᴰ e (event ∷ stuck ∷ [])
        → e.status ≡ published
        → Memᴰ (message_of e) []
    unpublished e (Memᴰ.head a) h = cc
    unpublished e (Memᴰ.tail (Memᴰ.head a)) h = cc
    unpublished e (Memᴰ.tail (Memᴰ.tail m)) h = elim m [ ]

abbrev worker : Worker
unfolding new_worker
worker = new_worker (pos 0) (pos 0)

abbrev after : Memory × List Message
after = process_batch memory writer (λ e. 3) worker (outbox, [])

process_batch-IsSound_example :
    IsSound memory writer (λ e. 3) memory_laws writer_laws (tables after.0) after.1
process_batch-IsSound_example =
    process_batch-IsSound memory writer (λ e. 3) memory_laws writer_laws worker outbox []
      outbox-IsSound

increment_event_retry-done_example :
    (e : OutboxEventModel) × Memᴰ e (tables outbox).events
    × (e.id ≡ "e2")
    × Memᴰ
        (retried "no broker" e)
        (tables (increment_event_retry memory "e2" "no broker" outbox).1).events
    × (10 ≤ e.retry_count
        → (n : ℤ) (later : Memory) (batch : List OutboxEventModel)
        → (get_pending_events memory n later).0 ≡ ok batch
        → ¬ Memᴰ (retried "no broker" e) batch)
unfolding increment_event_retry steps
increment_event_retry-done_example =
    increment_event_retry-done memory memory_laws "e2" "no broker" outbox refl

-- A broker that takes every message.
abbrev open_writer : KafkaWriter
open_writer = record { State = List Message; write_messages = λ m log. (ok tt, m ∷ log) }

process_batch-IsPublished_example :
    IsPublished "e2" (tables (process_batch memory open_writer (λ e. 3) worker (outbox, [])).0)
unfolding get_pending_events steps worker
process_batch-IsPublished_example =
    process_batch-IsPublished memory open_writer (λ e. 3) memory_laws (λ m b. refl)
      (λ id sets m here. update_outbox_event-ok id sets m {e = here.0} here.1 here.2) worker outbox
      [] {events = event ∷ stuck ∷ []} refl stuck (Memᴰ.tail (Memᴰ.head refl))
