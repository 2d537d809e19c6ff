-- ===== src/Outbox/Delivery.antt =====
-- What the worker of internal/outbox/worker.go promises: an event is marked as published only after
-- the broker has taken its message.
use store_order.Base.{
  String, ◌≡◌, refl, sym, ◌∙◌, ap, subst, List, ◌⊎◌, inl, inr, ok, ℕ, ◌+◌, Result-cases, arith,
  Memᴰ, Memᴰ-map, map-Memᴰ, ◌==◌, eq_iff, Bool-cases,
}
use store_order.Schema.{Time, published, OutboxEventModel, OutboxSet, apply_event_sets}
use store_order.Prisma.{Prisma}
use store_order.Prisma.Tables.{Tables, PrismaLaws, change_event, with_event}
use store_order.Repository.Outbox.{
  mark_event_published, increment_event_retry, published_params, retry_params,
}
use store_order.Outbox.{Message, KafkaWriter, message_of}

-- Kafka's writer: a message whose write returns no error is in the broker's log, from which nothing
-- is removed.
pub record WriterLaws (w : KafkaWriter) : Type 1 where
  pub Logged : Message → w.State → Type 0
  pub keeps : (m n : Message) (b : w.State) → Logged m b → Logged m (w.write_messages n b).1
  pub acknowledged :
      (m : Message) (b : w.State)
      → (w.write_messages m b).0 ≡ ok tt
      → Logged m (w.write_messages m b).1

-- No two events have one id.
abbrev pub IsKeyed : Tables → Type 0
IsKeyed t = (d e : OutboxEventModel) → Memᴰ d t.events → Memᴰ e t.events → d.id ≡ e.id → d ≡ e

-- An assignment that the worker makes: of a status that it has reason for, or of a retry's outcome.
abbrev pub Assigns : OutboxEventModel → List OutboxSet → Tables → Tables → Type 0
Assigns event sets t t' = (t' ≡ t) ⊎ (t' ≡ change_event event.id (apply_event_sets sets) t)

module _ (p : Prisma) (l : PrismaLaws p) where
  open l use {tables}

  pub mark_event_published-Assigns :
      (event : OutboxEventModel) (now : Time) (s : p.State)
      → Assigns event
          (published_params now)
          (tables s)
          (tables (mark_event_published p event.id now s).1)
  unfolding mark_event_published
  mark_event_published-Assigns event now s =
      elim (Result-cases (p.update_outbox_event event.id (published_params now) s).0) [
        | inl (e, h) ↦ inr (rw h (l.update_outbox_event_done _ _ s e h))
        | inr (x, h) ↦ inl (rw h (l.update_outbox_event_failed _ _ s x h))
      ]

  pub increment_event_retry-Assigns :
      (event : OutboxEventModel) (message : String) (s : p.State)
      → (n : ℕ) × Assigns event
          (retry_params n message)
          (tables s)
          (tables (increment_event_retry p event.id message s).1)
  unfolding increment_event_retry
  increment_event_retry-Assigns event message s =
      elim (Result-cases (p.find_outbox_event event.id s).0) [
        | inr (x, h) ↦ (0, inl (rw h (l.find_outbox_event_keeps event.id s)))
        | inl (found, h) ↦
            let sets = retry_params (found.retry_count + 1) message in
            let s' = (p.find_outbox_event event.id s).1 in
            let kept = l.find_outbox_event_keeps event.id s in
            elim (Result-cases (p.update_outbox_event event.id sets s').0) [
              | inl (e, g) ↦ (
                found.retry_count + 1,
                inr (
                    rw (h, g)
                      (l.update_outbox_event_done _ _ s' e g
                        ∙ ap (change_event event.id (apply_event_sets sets)) kept)),
              )
              | inr (x, g) ↦ (0, inl (rw (h, g) (l.update_outbox_event_failed _ _ s' x g ∙ kept)))
            ]
      ]

-- What the worker assigns leaves the identifier and the message of an event.
pub record KeepsMessage (sets : List OutboxSet) : Type 0 where
  pub id : (e : OutboxEventModel) → (apply_event_sets sets e).id ≡ e.id
  pub message : (e : OutboxEventModel) → message_of (apply_event_sets sets e) ≡ message_of e

-- the event of a batch, as the table now has it
abbrev pub Holds : OutboxEventModel → Tables → Type 0
Holds event t =
    (e : OutboxEventModel) × Memᴰ e t.events × (e.id ≡ event.id) × (message_of e ≡ message_of event)

module _ (id : String) (sets : List OutboxSet) (k : KeepsMessage sets) where
  abbrev changed : OutboxEventModel → OutboxEventModel
  changed = with_event id (apply_event_sets sets)

  id-changed : (e : OutboxEventModel) → (changed e).id ≡ e.id
  id-changed e = ground (arith, k.id e)

  message-changed : (e : OutboxEventModel) → message_of (changed e) ≡ message_of e
  message-changed e = elim (Bool-cases (e.id == id)) [
    | inl h ↦ rw h (k.message e)
    | inr h ↦ rw h refl
  ]

  pub change_event-IsKeyed :
      (t : Tables) → IsKeyed t → IsKeyed (change_event id (apply_event_sets sets) t)
  change_event-IsKeyed t keyed d e m n same =
      let (d', m', d_of) = Memᴰ-map changed t.events m in
      let (e', n', e_of) = Memᴰ-map changed t.events n in
      let back : d'.id ≡ e'.id =
        sym (ap (λ (x : OutboxEventModel). x.id) d_of ∙ id-changed d')
        ∙ same
        ∙ ap (λ (x : OutboxEventModel). x.id) e_of
        ∙ id-changed e' in
      d_of ∙ ap changed (keyed d' e' m' n' back) ∙ sym e_of

  pub change_event-Holds :
      (event : OutboxEventModel) (t : Tables)
      → Holds event t
      → Holds event (change_event id (apply_event_sets sets) t)
  change_event-Holds event t (e, m, same, message) =
      (changed e, map-Memᴰ changed t.events m, id-changed e ∙ same, message-changed e ∙ message)

pub published-KeepsMessage : (now : Time) → KeepsMessage (published_params now)
published-KeepsMessage now = record { id = λ e. refl; message = λ e. refl }

pub retry-KeepsMessage : (n : ℕ) (message : String) → KeepsMessage (retry_params n message)
retry-KeepsMessage n message = record { id = λ e. refl; message = λ e. refl }

module _ (w : KafkaWriter) (k : WriterLaws w) where
  -- Every event that is marked as published has its message in the broker's log.
  abbrev pub IsDelivered : Tables → w.State → Type 0
  IsDelivered t b =
      (e : OutboxEventModel) → Memᴰ e t.events → e.status ≡ published → k.Logged (message_of e) b

  pub mark-IsDelivered :
      (event : OutboxEventModel) (now : Time) (t : Tables) (b : w.State)
      → IsKeyed t
      → Holds event t
      → k.Logged (message_of event) b
      → IsDelivered t b
      → IsDelivered (change_event event.id (apply_event_sets (published_params now)) t) b
  mark-IsDelivered event now t b keyed (e0, m0, id0, message0) logged delivered e m status =
      let sets = published_params now in
      let (old, n, e_of) =
        Memᴰ-map (changed event.id sets (published-KeepsMessage now)) t.events m in
      let same =
        ap message_of e_of ∙ message-changed event.id sets (published-KeepsMessage now) old in
      elim (Bool-cases (old.id == event.id)) [
        | inl h ↦
            let here : old ≡ e0 = keyed old e0 n m0 ((eq_iff old.id event.id).0 h ∙ sym id0) in
            subst (λ x. k.Logged x b) (sym (same ∙ ap message_of here ∙ message0)) logged
        | inr h ↦ subst (λ x. k.Logged x b) (sym same) (delivered old n (ground arith))
      ]

  pub retry-IsDelivered :
      (event : OutboxEventModel) (n : ℕ) (message : String) (t : Tables) (b : w.State)
      → IsDelivered t b
      → IsDelivered (change_event event.id (apply_event_sets (retry_params n message)) t) b
  retry-IsDelivered event n message t b delivered e m status =
      let sets = retry_params n message in
      let (old, m', e_of) =
        Memᴰ-map (changed event.id sets (retry-KeepsMessage n message)) t.events m in
      let same =
        ap message_of e_of ∙ message-changed event.id sets (retry-KeepsMessage n message) old in
      elim (Bool-cases (old.id == event.id)) [
        | inl h ↦ absurd (ground arith)
        | inr h ↦ subst (λ x. k.Logged x b) (sym same) (delivered old m' (ground arith))
      ]
