-- ===== src/Outbox/Retries.antt =====
-- What a failed publication costs an event: IncrementEventRetry of outbox_repository.go.
use store_order.Base.{
  ℕ, ℤ, List, ltb, if◌then◌else◌, ◌≢◌, String, ◌≡◌, refl, sym, ◌∙◌, ap, ok, some, ◌+◌, ◌≤◌,
  continue-ok, arith, Memᴰ, subst, map-Memᴰ,
}
use text.Mathlib.TextPositions.{eq_refl}
use store_order.Schema.{OutboxStatus, OutboxEventModel, pending, failed, apply_event_sets}
use store_order.Prisma.{Prisma}
use store_order.Prisma.Tables.{Tables, PrismaLaws, change_event, with_event}
use store_order.Repository.Outbox.{
  get_pending_events, increment_event_retry, retry_params, retry_status,
}

-- the event `e` after one more failure: pending again, or FAILED if it had failed ten times before
abbrev pub retried : String → OutboxEventModel → OutboxEventModel
retried message e = record e {
  retry_count = e.retry_count + 1;
  error_message = some message;
  status = if ltb e.retry_count 10 then pending else failed;
}

status-retried : (n : ℕ) → retry_status (n + 1) ≡ (if ltb n 10 then pending else failed)
status-retried n = ground arith

retry_params-retried :
    (message : String) (e : OutboxEventModel)
    → apply_event_sets (retry_params (e.retry_count + 1) message) e ≡ retried message e
retry_params-retried message e =
    ap
      (λ (st : OutboxStatus). record e {
        retry_count = e.retry_count + 1;
        error_message = some message;
        status = st;
      })
      (status-retried e.retry_count)

gives_up : (n : ℕ) → 10 ≤ n → (if ltb n 10 then pending else failed) ≢ pending
gives_up n h e = ground arith

module _ (p : Prisma) (l : PrismaLaws p) where
  open l use {tables}

  -- A retry that is recorded without an error is of a stored event with the identifier. Afterwards
  -- the outbox has that event with its count one higher and the error's text, pending again, or
  -- FAILED if it had failed ten times before; nothing else of the event has changed, and in the
  -- second case no batch that is read has it, from that or any other state.
  pub increment_event_retry-done :
      (id message : String) (s : p.State)
      → (increment_event_retry p id message s).0 ≡ ok tt
      → (e : OutboxEventModel) × Memᴰ e (tables s).events
        × (e.id ≡ id)
        × Memᴰ (retried message e) (tables (increment_event_retry p id message s).1).events
        × (10 ≤ e.retry_count
            → (n : ℤ) (later : p.State) (batch : List OutboxEventModel)
            → (get_pending_events p n later).0 ≡ ok batch
            → ¬ Memᴰ (retried message e) batch)
  unfolding increment_event_retry get_pending_events
  increment_event_retry-done id message s h =
      let (e, found, h, same) = continue-ok _ _ _ h in
      let (u, updated, h, same') = continue-ok _ _ _ h in
      let (m, named) = l.find_outbox_event_found id s e found in
      let kept = l.find_outbox_event_keeps id s in
      let sets = retry_params (e.retry_count + 1) message in
      let effect =
        ap tables (same ∙ same')
        ∙ l.update_outbox_event_done id _ _ u updated
        ∙ ap (change_event id (apply_event_sets sets)) kept in
      let updates : with_event id (apply_event_sets sets) e ≡ apply_event_sets sets e =
        rw (named, eq_refl id) refl in
      let changed = updates ∙ retry_params-retried message e in
      (
        e,
        m,
        named,
        subst (λ (t : Tables). Memᴰ (retried message e) t.events) (sym effect)
            (subst (λ x. Memᴰ x (change_event id (apply_event_sets sets) (tables s)).events) changed
              (map-Memᴰ (with_event id (apply_event_sets sets)) (tables s).events m)),
        λ spent n later batch read listed.
            gives_up e.retry_count spent
              ((l.find_outbox_events_sound pending _ later batch read).1 (retried message e)
                listed).1,
      )
