-- ===== src/Scenarios/Deliveries.antt =====
-- internal/consumer/user_event_consumer.go on the database of Fixtures, with a reader of two messages.
use store_order.Base.{
  ℕ, ◌≡◌, ◌≢◌, ◌⊎◌, refl, some, ok, err, trim_space, to_lower, ◌+◌, if◌then◌else◌, nat_eq,
}
use store_order.Prisma.Memory.{memory, steps}
use store_order.Prisma.Memory.Laws.{memory_laws}
use store_order.Repository.Orders.{
  update_each, insert_events, cancel_orders, cancel_unpaid_user_orders, list_orders_by_user_id,
  with_total,
}
use store_order.Service.Users.{handle_user_banned, clean_up_banned, cancellation_events}
use store_order.Consumer.{
  Decoder, UserEventEnvelope, UserEventData, Message, MessageReader, message, process_message,
  extract_user_lifecycle_event,
}
use store_order.Consumer.Messages.{extract-IsLifecycleEvent, IsLifecycleEvent, IsTyped}
use store_order.Consumer.Handling.{process_message-done, Handles}
use store_order.Scenarios.Fixtures.{surroundings, draw, shop}

-- Every text is an envelope: the text is the user, and the type is user.banned.
abbrev pub decoder : Decoder
decoder = record {
  envelope = λ content. ok (record {
    event_type = " user.banned";
    event = "";
    type_name = "";
    payload = "";
    user_id = content;
    user_id_camel = "";
    id = "";
    reason = "fraud";
  });
  payload = λ content. err "no object";
}

abbrev ban : UserEventData
ban = record { user_id = "ann"; event_type = "user.banned"; reason = "fraud" }

extract-IsLifecycleEvent_example :
    IsLifecycleEvent ban
    × ((env : UserEventEnvelope) × (decoder.envelope "ann" ≡ ok env)
        × IsTyped surroundings env "user.banned")
unfolding extract_user_lifecycle_event trim_space to_lower
extract-IsLifecycleEvent_example =
    extract-IsLifecycleEvent surroundings decoder "ann" {event = ban} refl

abbrev of_ann : Message
of_ann = record { offset = 0; value = "ann" }

abbrev of_zoe : Message
of_zoe = record { offset = 1; value = "zoe" }

process_message-done_example :
    (((process_message memory surroundings decoder (λ i. draw) of_ann shop).1 ≡ shop)
      × ((event : UserEventData)
          → extract_user_lifecycle_event surroundings decoder "ann" ≢ ok (some event)))
    ⊎ ((event : UserEventData) × (extract_user_lifecycle_event surroundings decoder "ann"
          ≡ ok (some event))
        × Handles memory surroundings decoder memory_laws event shop
            (process_message memory surroundings decoder (λ i. draw) of_ann shop).1)
unfolding process_message extract_user_lifecycle_event handle_user_banned clean_up_banned
    list_orders_by_user_id with_total cancellation_events cancel_unpaid_user_orders cancel_orders
    update_each insert_events trim_space to_lower steps
process_message-done_example =
    process_message-done memory surroundings decoder memory_laws (λ i. draw) of_ann shop refl

-- The position of a reader, and the offset that its group has committed.
abbrev pub reader : MessageReader
reader = record {
  State = ℕ × ℕ;
  fetch_message = λ b. (message (if nat_eq b.0 0 then of_ann else of_zoe), (b.0 + 1, b.1));
  commit_messages = λ m b. (ok tt, (b.0, m.offset + 1));
}
