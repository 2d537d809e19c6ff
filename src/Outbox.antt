-- ===== src/Outbox.antt =====
-- internal/outbox/worker.go on internal/kafka/producer.go. Kafka's writer is a parameter; a run of
-- the worker has the database's state beside the broker's, and an error that the code only logs leaves
-- no trace.
pub mod Delivery
pub mod Batch
pub mod Retries
pub mod Progress
pub mod Running
pub mod Dialer
use store_order.Base.{
  String, Option, List, [], ◌∷◌, Result, ok, err, ℤ, pos, is_positive, if◌then◌else◌, Action, wrap,
  ◌<>◌,
}
use store_order.Schema.{Time, OutboxEventModel}
use store_order.Prisma.{Prisma}
use store_order.Repository.Outbox.{get_pending_events, mark_event_published, increment_event_retry}

-- kafka.Message without the time that Publish stamps
pub record Message : Type 0 where
  pub topic : String
  pub key : String
  pub value : String

-- kafka.Writer: `WriteMessages` with one message
pub record KafkaWriter : Type 1 where
  pub State : Type 0
  pub write_messages : Message → Action State (Unit {0})

-- time.Duration, in nanoseconds
abbrev pub Duration : Type 0
Duration = ℤ

pub record Worker : Type 0 where
  pub poll_interval : Duration
  pub batch_size : ℤ

unfoldable pub new_worker : Duration → ℤ → Worker
new_worker poll_interval batch_size = record {
  poll_interval = if is_positive poll_interval then poll_interval else pos 200_000_000;
  batch_size = if is_positive batch_size then batch_size else pos 50;
}

abbrev pub message_of : OutboxEventModel → Message
message_of event = record { topic = event.topic; key = event.aggregate_id; value = event.payload }

module _ (w : KafkaWriter) where
  unfoldable pub publish : Message → Action w.State (Unit {0})
  publish msg = wrap ("failed to write kafka message to topic " <> msg.topic) (w.write_messages msg)

-- `clock event` is what MarkEventPublished reads from the clock for the event.
module _ (p : Prisma) (w : KafkaWriter) (clock : OutboxEventModel → Time) where
  abbrev pub World : Type 0
  World = p.State × w.State

  -- what follows the attempt to publish
  abbrev pub record_outcome : OutboxEventModel → Result (Unit {0}) → p.State → p.State
  record_outcome event (err e) s = (increment_event_retry p event.id e s).1
  record_outcome event (ok _) s = (mark_event_published p event.id (clock event) s).1

  abbrev pub process_event : OutboxEventModel → World → World
  process_event event (s, b) =
      let (r, b') = publish w (message_of event) b in (record_outcome event r s, b')

  -- the loop over the batch
  abbrev pub process_events : List OutboxEventModel → World → World
  process_events [] world = world
  process_events (event ∷ events) world = process_events events (process_event event world)

  abbrev pub process_fetched : Result (List OutboxEventModel) → World → World
  process_fetched (err e) world = world
  process_fetched (ok events) world = process_events events world

  unfoldable pub process_batch : Worker → World → World
  process_batch worker (s, b) =
      let (r, s') = get_pending_events p worker.batch_size s in process_fetched r (s', b)
