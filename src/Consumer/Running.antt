-- ===== src/Consumer/Running.antt =====
-- The loop of internal/consumer/user_event_consumer.go with the signals that end it, and the
-- consumer's construction.
use store_order.Base.{
  ℕ, zero, suc, ◌≤◌, ◌≡◌, refl, sym, ap, ◌∙◌, String, List, Bool, true, false, ◌&&◌, ◌||◌,
  if◌then◌else◌, is_empty, arith, Bool-cases, inl, inr,
}
use store_order.Runtime.{Runtime, Draw}
use store_order.Prisma.{Prisma}
use store_order.Outbox.Dialer.{Net}
use store_order.Outbox.Dialer
use store_order.Consumer.{
  Decoder, Fetched, closed, failed, MessageReader, World, handle_fetched, run,
}

-- kafka.ReaderConfig; the interval of the commits is in nanoseconds
pub record ReaderConfig : Type 0 where
  pub brokers : List String
  pub group_id : String
  pub topic : String
  pub min_bytes : ℕ
  pub max_bytes : ℕ
  pub dialer : String → String
  pub commit_interval : ℕ
  pub from_first_offset : Bool

-- UserEventConsumer, less the channel and the group by which it is stopped
pub record UserEventConsumer : Type 1 where
  pub reader : MessageReader
  pub is_dev_mode : Bool

abbrev new_smart_dialer : Net → String → String
new_smart_dialer = Dialer.new_smart_dialer

abbrev pub new_user_event_consumer_with_reader : MessageReader → Bool → UserEventConsumer
new_user_event_consumer_with_reader reader is_dev_mode = record {
  reader = reader;
  is_dev_mode = is_dev_mode;
}

-- the configuration of the reader
abbrev pub reader_config : Net → List String → String → String → ReaderConfig
reader_config net brokers topic group_id = record {
  brokers = brokers;
  group_id = if is_empty group_id then "store_order_user_events" else group_id;
  topic = if is_empty topic then "user.events" else topic;
  min_bytes = 10_000;
  max_bytes = 10_000_000;
  dialer = new_smart_dialer net;
  commit_interval = 1_000_000_000;
  from_first_offset = true;
}

-- `new_reader` is kafka.NewReader
unfoldable pub new_user_event_consumer :
    Net → (ReaderConfig → MessageReader) → List String → String → String → Bool → UserEventConsumer
new_user_event_consumer net new_reader brokers topic group_id is_dev_mode =
    new_user_event_consumer_with_reader (new_reader (reader_config net brokers topic group_id))
      is_dev_mode

-- Where the loop stands: it has returned, or its rounds are used up.
pub data Ending (W : Type 0) : Type 0 where
  ended : W → Ending W
  running : W → Ending W

abbrev is_closed : Fetched → Bool
is_closed closed = true
is_closed _ = false

abbrev is_failed : Fetched → Bool
is_failed failed = true
is_failed _ = false

module _ (p : Prisma) (rt : Runtime) (d : Decoder) (r : MessageReader) where
  -- `run` for at most so many rounds. `stops i` says whether round i finds that it has been told to
  -- stop, by the channel or the context; `stops_late i` whether it finds so after a failed fetch.
  unfoldable pub run_until :
      ℕ → (ℕ → Bool) → (ℕ → Bool) → (ℕ → ℕ → Draw) → World p rt d r → Ending (World p rt d r)
  run_until zero stops stops_late draws world = running world
  run_until (suc n) stops stops_late draws (s, b) =
      let (fetched, b') = r.fetch_message b in
      let world = handle_fetched p rt d r (draws 0) fetched (s, b') in
      let rest =
        run_until n (λ i. stops (suc i)) (λ i. stops_late (suc i)) (λ i. draws (suc i)) world in
      if stops 0
      then ended (s, b)
      else if is_closed fetched || (is_failed fetched && stops_late 0)
      then ended world
      else rest

  -- the world after a round that is not stopped at its beginning
  abbrev next : (ℕ → ℕ → Draw) → World p rt d r → World p rt d r
  next draws (s, b) =
      let (fetched, b') = r.fetch_message b in handle_fetched p rt d r (draws 0) fetched (s, b')

  abbrev fetched_from : World p rt d r → Fetched
  fetched_from (s, b) = (r.fetch_message b).0

  run_once :
      (draws : ℕ → ℕ → Draw) (world : World p rt d r)
      → run p rt d r 1 draws world ≡ next draws world
  unfolding run
  run_once draws world = elim (Bool-cases (is_closed (fetched_from world))) [
    | inl e ↦ rw e refl
    | inr e ↦ rw e refl
  ]

  run_more :
      (k : ℕ) (draws : ℕ → ℕ → Draw) (world : World p rt d r)
      → is_closed (fetched_from world) ≡ false
      → run p rt d r (suc k) draws world ≡ run p rt d r k (λ i. draws (suc i)) (next draws world)
  unfolding run
  run_more k draws world e = rw e refl

  module _ (n : ℕ) (stops stops_late : ℕ → Bool) (draws : ℕ → ℕ → Draw) (world : World p rt d r)
      (later : stops 0 ≡ false) where
    abbrev leaves : Bool
    leaves = is_closed (fetched_from world) || (is_failed (fetched_from world) && stops_late 0)

    run_until_last :
        leaves ≡ true → run_until (suc n) stops stops_late draws world ≡ ended (next draws world)
    unfolding run_until
    run_until_last e = rw (later, e) refl

    run_until_more :
        leaves ≡ false
        → run_until (suc n) stops stops_late draws world
          ≡ run_until n
              (λ i. stops (suc i))
              (λ i. stops_late (suc i))
              (λ i. draws (suc i))
              (next draws world)
    unfolding run_until
    run_until_more e = rw (later, e) refl

  run_until_now :
      (n : ℕ) (stops stops_late : ℕ → Bool) (draws : ℕ → ℕ → Draw) (world : World p rt d r)
      → stops 0 ≡ true
      → run_until (suc n) stops stops_late draws world ≡ ended (run p rt d r 0 draws world)
  unfolding run_until run
  run_until_now n stops stops_late draws world now = rw now refl

  not_closed :
      (f : Fetched) (late : Bool)
      → (is_closed f || (is_failed f && late)) ≡ false
      → is_closed f ≡ false
  not_closed f late e = ground arith

  -- Once told to stop by round n, the loop returns, at the latest in that round: it ends where so many
  -- whole rounds, each with its message fetched, handled and acknowledged, have led.
  pub run_until-ends :
      (n : ℕ) (stops stops_late : ℕ → Bool) (draws : ℕ → ℕ → Draw) (world : World p rt d r)
      → stops n ≡ true
      → (k : ℕ) × (k ≤ n)
        × (run_until (suc n) stops stops_late draws world ≡ ended (run p rt d r k draws world))
  run_until-ends zero stops stops_late draws world told =
      (0, omega arith, run_until_now 0 stops stops_late draws world told)
  run_until-ends (suc n) stops stops_late draws world told = elim (Bool-cases (stops 0)) [
    | inl now ↦ (0, omega arith, run_until_now (suc n) stops stops_late draws world now)
    | inr later ↦ elim (Bool-cases (leaves (suc n) stops stops_late draws world later)) [
      | inl e ↦ (
        1,
        omega arith,
        run_until_last (suc n) stops stops_late draws world later e
            ∙ ap ended (sym (run_once draws world)),
      )
      | inr e ↦
          let (k, le, same) =
            run_until-ends n (λ i. stops (suc i)) (λ i. stops_late (suc i)) (λ i. draws (suc i))
              (next draws world) told in
          (
            suc k,
            omega arith,
            run_until_more (suc n) stops stops_late draws world later e
                ∙ (same
                    ∙ ap ended (
                        sym (
                          run_more k draws world
                            (not_closed (fetched_from world) (stops_late 0) e)))),
          )
    ]
  ]
