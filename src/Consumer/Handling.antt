-- ===== src/Consumer/Handling.antt =====
-- What the consumer of internal/consumer/user_event_consumer.go has done when a message is handled.
use store_order.Base.{
  ℕ, ◌≡◌, ◌≢◌, ◌⊎◌, inl, inr, refl, Option, none, some, Result, ok, err, trim_space,
}
use store_order.Runtime.{Runtime, Draw}
use store_order.Prisma.{Prisma}
use store_order.Prisma.Tables.{PrismaLaws}
use store_order.Consumer.{
  UserEventData, Decoder, Message, extract_user_lifecycle_event, handle_event, handle_extracted,
  process_message,
}
use store_order.Consumer.Messages.{extract-IsLifecycleEvent}
use store_order.Service.Users.Lifecycle.{
  DeletesUser, BansUser, handle_user_deleted-done, handle_user_banned-done,
}

module _ (p : Prisma) (rt : Runtime) (d : Decoder) (l : PrismaLaws p) where
  open l use {tables}

  -- the tables after an event
  abbrev pub Handles : UserEventData → p.State → p.State → Type 0
  Handles event s s' =
      ((event.event_type ≡ "user.deleted")
        × DeletesUser rt (trim_space event.user_id) (tables s) (tables s'))
      ⊎ ((event.event_type ≡ "user.banned")
          × BansUser rt (trim_space event.user_id) event.reason (tables s) (tables s'))

  handle_event-Handles :
      (draws : ℕ → Draw) (event : UserEventData) (s : p.State)
      → (event.event_type ≡ "user.deleted") ⊎ (event.event_type ≡ "user.banned")
      → (handle_event p rt d draws event s).0 ≡ ok tt
      → Handles event s (handle_event p rt d draws event s).1
  handle_event-Handles draws event s (inl e) h =
      rw e (inl (refl, handle_user_deleted-done p rt l draws event.user_id s (rw e at h)))
  handle_event-Handles draws event s (inr e) h =
      rw e
        (inr (refl, handle_user_banned-done p rt l draws event.user_id s event.reason (rw e at h)))

  -- A message that is handled without an error has left the database as it was, and no event could be
  -- extracted from it, or it carried the event of a user whose orders have been cleaned up, as the
  -- event's type asks: user.deleted or user.banned.
  pub process_message-done :
      (draws : ℕ → Draw) (msg : Message) (s : p.State)
      → (process_message p rt d draws msg s).0 ≡ ok tt
      → (((process_message p rt d draws msg s).1 ≡ s)
          × ((event : UserEventData)
              → extract_user_lifecycle_event rt d msg.value ≢ ok (some event)))
        ⊎ ((event : UserEventData) × (extract_user_lifecycle_event rt d msg.value ≡ ok (some event))
            × Handles event s (process_message p rt d draws msg s).1)
  unfolding process_message
  process_message-done draws msg s h = go (extract_user_lifecycle_event rt d msg.value) refl h
    where
      go :
          (x : Result (Option UserEventData))
          → extract_user_lifecycle_event rt d msg.value ≡ x
          → (handle_extracted p rt d draws x s).0 ≡ ok tt
          → (((handle_extracted p rt d draws x s).1 ≡ s)
              × ((event : UserEventData) → x ≢ ok (some event)))
            ⊎ ((event : UserEventData) × (x ≡ ok (some event))
                × Handles event s (handle_extracted p rt d draws x s).1)
      go (err e) same h = inl (refl, λ event bad. cc)
      go (ok none) same h = inl (refl, λ event bad. cc)
      go (ok (some event)) same h =
          let ((of_type, _), _) = extract-IsLifecycleEvent rt d msg.value {event = event} same in
          inr (event, refl, handle_event-Handles draws event s of_type h)
