-- ===== src/Service/Events/Telling.antt =====
-- What the entries that internal/service/order_service.go stores in the outbox say.
use store_order.Base.{
  String, ◌≡◌, refl, List, [], ◌∷◌, ◌⊎◌, inl, inr, Result, ok, err, some, ap, sym,
}
use store_order.Schema.{OutboxEventModel, pending}
use store_order.Runtime.{Runtime, DomainEventEnvelope}
use store_order.Prisma.Tables.{AreCreatedFrom}
use store_order.Repository.Orders.Update.{asked}
use store_order.Service.Events.{order_outbox, or_empty}

-- A stored entry about the order `id`: it carries an envelope of the service with this type, and
-- awaits publication. Where the envelope cannot be marshalled, the entry is stored empty.
pub record Tells (rt : Runtime) (id type : String) (e : OutboxEventModel) : Type 0 where
  pub aggregate_id : e.aggregate_id ≡ id
  pub aggregate_type : e.aggregate_type ≡ "ORDER"
  pub topic : e.topic ≡ "order.events"
  pub waits : e.status ≡ pending
  pub untried : e.retry_count ≡ 0
  pub envelope : DomainEventEnvelope
  pub typed : envelope.event_type ≡ type
  pub produced : envelope.producer ≡ "store_order"
  pub content :
      (rt.marshal envelope ≡ ok e.payload)
      ⊎ ((e.payload ≡ "") × ((failure : String) × (rt.marshal envelope ≡ err failure)))

-- one entry for each type
abbrev pub AreTold : Runtime → String → List String → List OutboxEventModel → Type 0
AreTold rt id [] [] = Unit
AreTold rt id (type ∷ types) (e ∷ es) = Tells rt id type e × AreTold rt id types es
AreTold rt id _ _ = ⊥

pub untold :
    (rt : Runtime) (id : String) (es : List OutboxEventModel)
    → AreCreatedFrom [] es
    → AreTold rt id [] es
untold rt id [] h = h
untold rt id (e ∷ es) h = elim h [ ]

or_empty_content :
    (r : Result String) (payload : String)
    → payload ≡ or_empty r
    → (r ≡ ok payload) ⊎ ((payload ≡ "") × ((failure : String) × (r ≡ err failure)))
or_empty_content (ok s) payload h = inl (ap ok (sym h))
or_empty_content (err e) payload h = inr (h, (e, refl))

module _ (rt : Runtime) (id type : String) (envelope : DomainEventEnvelope) where
  -- an entry of the service that was asked for, once it is stored
  pub asked-AreTold :
      (order : String) (es : List OutboxEventModel)
      → envelope.event_type ≡ type
      → envelope.producer ≡ "store_order"
      → AreCreatedFrom (asked id (some (order_outbox rt order envelope))) es
      → AreTold rt id (type ∷ []) es
  asked-AreTold order (e ∷ []) typed produced (from, tt) = (
    record {
      aggregate_id = from.aggregate_id;
      aggregate_type = from.aggregate_type;
      topic = from.topic;
      waits = from.status;
      untried = from.retry_count;
      envelope = envelope;
      typed = typed;
      produced = produced;
      content = or_empty_content (rt.marshal envelope) e.payload from.payload;
    },
    tt,
  )
  asked-AreTold order [] typed produced h = elim h [ ]
  asked-AreTold order (e ∷ f ∷ es) typed produced h = elim h.1 [ ]
