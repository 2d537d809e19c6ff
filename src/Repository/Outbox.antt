-- ===== src/Repository/Outbox.antt =====
-- internal/repository/outbox_repository.go
use store_order.Base.{
  String, ℕ, ◌+◌, List, [], ◌∷◌, ltb, if◌then◌else◌, ℤ, pos, is_positive, Action, pure, ◌>>=◌, ◌>>◌,
}
use store_order.Schema.{
  Time, OutboxStatus, pending, published, failed, OutboxEventModel, OutboxSet, set_event_status,
  set_published_at, set_retry_count, set_error_message,
}
use store_order.Prisma.{Prisma}

-- `if retries > 10 { status = Failed }`
abbrev pub retry_status : ℕ → OutboxStatus
retry_status retries = if ltb 10 retries then failed else pending

abbrev pub retry_params : ℕ → String → List OutboxSet
retry_params retries message =
    set_retry_count retries
    ∷ set_error_message message
    ∷ set_event_status (retry_status retries)
    ∷ []

abbrev pub published_params : Time → List OutboxSet
published_params now = set_event_status published ∷ set_published_at now ∷ []

module _ (p : Prisma) where
  open p use {State}

  unfoldable pub get_pending_events : ℤ → Action State (List OutboxEventModel)
  get_pending_events limit =
      p.find_outbox_events pending (if is_positive limit then limit else pos 50)

  unfoldable pub mark_event_published : String → Time → Action State (Unit {0})
  mark_event_published id now = do p.update_outbox_event id (published_params now); pure tt

  unfoldable pub increment_event_retry : String → String → Action State (Unit {0})
  increment_event_retry id message = do
    event ← p.find_outbox_event id
    p.update_outbox_event id (retry_params (event.retry_count + 1) message)
    pure tt
