-- ===== src/Consumer.antt =====
-- internal/consumer/user_event_consumer.go: what a user's life-cycle event says, its handling, and
-- the loop over the messages of a partition. Kafka's reader and the JSON decoder are parameters.
pub mod Messages
pub mod Handling
pub mod Running
use store_order.Base.{
  ℕ, suc, String, Option, none, some, Result, ok, err, wrapped, is_empty, not, ◌&&◌, ◌==◌,
  if◌then◌else◌, Action, pure, raise, trim_space, ◌<>◌, Bool, true, false,
}
use store_order.Runtime.{Runtime, Draw, lower_text}
use store_order.Prisma.{Prisma}
use store_order.Service.Users.{handle_user_deleted, handle_user_banned}

-- UserEventEnvelope, less the fields that are never read; `user_id_camel` is the key "userId", and
-- `payload` the raw text of "data", empty where the key is missing
pub record UserEventEnvelope : Type 0 where
  pub event_type : String
  pub event : String
  pub type_name : String
  pub payload : String
  pub user_id : String
  pub user_id_camel : String
  pub id : String
  pub reason : String

-- what "data" holds
pub record UserEventPayload : Type 0 where
  pub user_id : String
  pub user_id_camel : String
  pub id : String
  pub reason : String

pub record UserEventData : Type 0 where
  pub user_id : String
  pub event_type : String
  pub reason : String

-- json.Unmarshal at the two types
pub record Decoder : Type 0 where
  pub envelope : String → Result UserEventEnvelope
  pub payload : String → Result UserEventPayload

-- the first text that is not empty
abbrev pub first_text : String → String → String
first_text a b = if is_empty a then b else a

abbrev pub event_type_of : Runtime → UserEventEnvelope → String
event_type_of rt env =
    let read : String → String = λ s. lower_text rt (trim_space s) in
    first_text (read env.event_type) (first_text (read env.event) (read env.type_name))

-- user id and reason of the nested object; none where it is missing or does not decode
abbrev pub nested : Decoder → UserEventEnvelope → String × String
nested d env =
    if not (is_empty env.payload) && not (env.payload == "null")
    then elim (d.payload env.payload) [
      | err e ↦ ("", "")
      | ok p ↦ (first_text p.user_id (first_text p.user_id_camel p.id), p.reason)
    ]
    else ("", "")

abbrev pub is_supported : String → Bool
is_supported t = if t == "user.deleted" then true else t == "user.banned"

-- below the test of the event type
abbrev pub event_data : Decoder → UserEventEnvelope → String → Result (Option UserEventData)
event_data d env event_type =
    let user = trim_space (
      first_text (nested d env).0 (first_text env.user_id (first_text env.user_id_camel env.id))) in
    if is_empty user
    then err "user ID missing from user event payload"
    else ok (
        some (record {
          user_id = user;
          event_type = first_text event_type "user.deleted";
          reason = trim_space (first_text (nested d env).1 env.reason);
        }))

-- an event of another type is ignored, one without a type is not
abbrev pub event_of_envelope : Runtime → Decoder → UserEventEnvelope → Result (Option UserEventData)
event_of_envelope rt d env =
    let event_type = event_type_of rt env in
    if not (is_supported event_type) && not (is_empty event_type)
    then ok none
    else event_data d env event_type

unfoldable pub extract_user_lifecycle_event :
    Runtime → Decoder → String → Result (Option UserEventData)
extract_user_lifecycle_event rt d payload =
    if is_empty payload then err "empty message payload" else elim (d.envelope payload) [
      | err e ↦ err ("invalid json payload" <> ": " <> e)
      | ok env ↦ event_of_envelope rt d env
    ]

abbrev pub deleted_id_of : Result (Option UserEventData) → Result (String × Bool)
deleted_id_of (err e) = err e
deleted_id_of (ok none) = ok ("", false)
deleted_id_of (ok (some event)) =
    if event.event_type == "user.deleted" then ok (event.user_id, true) else ok ("", false)

unfoldable pub extract_user_deleted_id : Runtime → Decoder → String → Result (String × Bool)
extract_user_deleted_id rt d payload = deleted_id_of (extract_user_lifecycle_event rt d payload)

-- a message of a partition
pub record Message : Type 0 where
  pub offset : ℕ
  pub value : String

-- what FetchMessage returns; `closed` where the error is context.Canceled or io.EOF
pub data Fetched : Type 0 where
  message : Message → Fetched
  closed : Fetched
  failed : Fetched

pub record MessageReader : Type 1 where
  pub State : Type 0
  pub fetch_message : State → Fetched × State
  pub commit_messages : Message → Action State (Unit {0})

module _ (p : Prisma) (rt : Runtime) (d : Decoder) where
  abbrev pub handle_event : (ℕ → Draw) → UserEventData → Action p.State (Unit {0})
  handle_event draws event =
      if event.event_type == "user.deleted"
      then handle_user_deleted p rt draws event.user_id
      else if event.event_type == "user.banned"
      then handle_user_banned p rt draws event.user_id event.reason
      else pure tt

  -- an event that cannot be read counts as handled
  abbrev pub handle_extracted :
      (ℕ → Draw) → Result (Option UserEventData) → Action p.State (Unit {0})
  handle_extracted draws (err e) = pure tt
  handle_extracted draws (ok none) = pure tt
  handle_extracted draws (ok (some event)) = handle_event draws event

  unfoldable pub process_message : (ℕ → Draw) → Message → Action p.State (Unit {0})
  process_message draws msg = handle_extracted draws (extract_user_lifecycle_event rt d msg.value)

  module _ (r : MessageReader) where
    -- the state of the database beside the reader's
    abbrev pub World : Type 0
    World = p.State × r.State

    -- what follows the handling of a message: an error skips the commit, whose own error is logged
    abbrev pub acknowledge : Message → Result (Unit {0}) → r.State → r.State
    acknowledge msg (err e) b = b
    acknowledge msg (ok _) b = (r.commit_messages msg b).1

    -- one round of the loop with what it fetched; `draws` is for the message
    abbrev pub handle_fetched : (ℕ → Draw) → Fetched → World → World
    handle_fetched draws (message msg) (s, b) =
        let (result, s') = process_message draws msg s in (s', acknowledge msg result b)
    handle_fetched draws _ world = world

    abbrev is_closed : Fetched → Bool
    is_closed closed = true
    is_closed _ = false

    -- `run` for so many rounds, or until the reader is closed; `draws i` is for the i-th round. A
    -- request to stop ends it between two rounds, as the number does.
    unfoldable pub run : ℕ → (ℕ → ℕ → Draw) → World → World
    run ℕ.zero draws world = world
    run (suc n) draws (s, b) =
        let (fetched, b') = r.fetch_message b in
        let world = handle_fetched (draws 0) fetched (s, b') in
        let rest = run n (λ i. draws (suc i)) world in if is_closed fetched then world else rest
