-- ===== src/Outbox/Running.antt =====
-- The loop of internal/outbox/worker.go: a tick runs a batch, a signal ends the loop. Which of the two
-- a round takes up, where both are ready, is chosen by the runtime.
use store_order.Base.{
  ℕ, zero, suc, ◌+◌, ◌*◌, ◌≤◌, ◌≡◌, refl, ◌∙◌, List, [], ◌∷◌, Result, ok, err, ℤ, length, pos_part,
  pos, is_positive, if◌then◌else◌, arith, ◌⊎◌, inl, inr,
}
use store_order.Schema.{Time, OutboxEventModel, pending}
use store_order.Prisma.{Prisma}
use store_order.Prisma.Tables.{PrismaLaws}
use store_order.Repository.Outbox.{get_pending_events}
use store_order.Outbox.{
  Message, KafkaWriter, Worker, message_of, publish, process_event, process_events, process_fetched,
  process_batch,
}

-- what a round of the loop takes up; `stopped` is the channel of Stop or the context's
pub data Selected : Type 0 where
  stopped ticked : Selected

pub data Ending (W : Type 0) : Type 0 where
  ended : W → Ending W
  running : W → Ending W

-- Kafka's writer as one counts the messages that it was handed.
pub record CountingLaws (w : KafkaWriter) : Type 0 where
  pub writes : w.State → ℕ
  pub one_more : (m : Message) (b : w.State) → writes (w.write_messages m b).1 ≡ suc (writes b)

module _ (p : Prisma) (w : KafkaWriter) where
  -- the state of the database beside the broker's
  abbrev Both : Type 0
  Both = p.State × w.State

  -- `run` for at most so many rounds; round i selects `choices i` and reads the clock `clocks i`
  unfoldable pub run :
      ℕ → (ℕ → Selected) → (ℕ → OutboxEventModel → Time) → Worker → Both → Ending Both
  run zero choices clocks worker world = running world
  run (suc n) choices clocks worker world =
      let rest =
        run n (λ i. choices (suc i)) (λ i. clocks (suc i)) worker
          (process_batch p w (clocks 0) worker world) in
      elim (choices 0) [ stopped ↦ ended world | ticked ↦ rest ]

  module _ (l : PrismaLaws p) (k : CountingLaws w) where
    open k use {writes}

    writes-publish : (m : Message) (b : w.State) → writes (publish w m b).1 ≡ suc (writes b)
    unfolding publish
    writes-publish m b = k.one_more m b

    writes-process_events :
        (clock : OutboxEventModel → Time) (events : List OutboxEventModel) (s : p.State)
        (b : w.State)
        → writes (process_events p w clock events (s, b)).1 ≡ length events + writes b
    writes-process_events clock [] s b = omega arith
    writes-process_events clock (event ∷ events) s b = omega (
      arith,
      writes-process_events clock events (process_event p w clock event (s, b)).0
          (publish w (message_of event) b).1,
      writes-publish (message_of event) b,
    )

    -- the number of events that are asked for
    abbrev pub batch_limit : Worker → ℕ
    batch_limit worker =
        pos_part (if is_positive worker.batch_size then worker.batch_size else pos 50)

    -- A tick hands the broker a batch at most.
    process_batch-le :
        (clock : OutboxEventModel → Time) (worker : Worker) (world : Both)
        → writes (process_batch p w clock worker world).1 ≤ batch_limit worker + writes world.1
    unfolding process_batch get_pending_events
    process_batch-le clock worker (s, b) = go query.0 refl
      where
        limit : ℤ
        limit = if is_positive worker.batch_size then worker.batch_size else pos 50

        query : Result (List OutboxEventModel) × p.State
        query = p.find_outbox_events pending limit s

        go :
            (x : Result (List OutboxEventModel))
            → query.0 ≡ x
            → writes (process_fetched p w clock x (query.1, b)).1 ≤ pos_part limit + writes b
        go (err e) same = omega arith
        go (ok events) same = omega (
          arith,
          writes-process_events clock events query.1 b,
          (l.find_outbox_events_sound pending limit s events same).0,
        )

    run_stopped :
        (n : ℕ) (choices : ℕ → Selected) (clocks : ℕ → OutboxEventModel → Time) (worker : Worker)
        (world : Both)
        → choices 0 ≡ stopped
        → run (suc n) choices clocks worker world ≡ ended world
    unfolding run
    run_stopped n choices clocks worker world told = rw (told, run) refl

    run_ticked :
        (n : ℕ) (choices : ℕ → Selected) (clocks : ℕ → OutboxEventModel → Time) (worker : Worker)
        (world : Both)
        → choices 0 ≡ ticked
        → run (suc n) choices clocks worker world
          ≡ run n
              (λ i. choices (suc i))
              (λ i. clocks (suc i))
              worker
              (process_batch p w (clocks 0) worker world)
    unfolding run
    run_ticked n choices clocks worker world tick = rw (tick, run) refl

    Selected-cases : (x : Selected) → (x ≡ stopped) ⊎ (x ≡ ticked)
    Selected-cases stopped = inl refl
    Selected-cases ticked = inr refl

    -- A worker that takes up the signal to stop in round n returns by then, and until it does it hands
    -- the broker at most n batches: n times its batch size, or n times 50 where that is not positive.
    pub run-bounded :
        (n : ℕ) (choices : ℕ → Selected) (clocks : ℕ → OutboxEventModel → Time) (worker : Worker)
        (world : Both)
        → choices n ≡ stopped
        → (world' : Both) × (run (suc n) choices clocks worker world ≡ ended world')
          × (writes world'.1 ≤ n * batch_limit worker + writes world.1)
    run-bounded zero choices clocks worker world told =
        (world, run_stopped 0 choices clocks worker world told, omega arith)
    run-bounded (suc n) choices clocks worker world told = elim (Selected-cases (choices 0)) [
      | inl now ↦ (world, run_stopped (suc n) choices clocks worker world now, grind arith)
      | inr tick ↦
          let after = process_batch p w (clocks 0) worker world in
          let (world', same, le) =
            run-bounded n (λ i. choices (suc i)) (λ i. clocks (suc i)) worker after told in
          (
            world',
            run_ticked (suc n) choices clocks worker world tick ∙ same,
            total (writes world'.1) (writes after.1) (writes world.1) (batch_limit worker) n le
                (process_batch-le (clocks 0) worker world),
          )
    ]
      where
        total : (a b c size n : ℕ) → a ≤ n * size + b → b ≤ size + c → a ≤ suc n * size + c
        total a b c size n h k = grind arith
