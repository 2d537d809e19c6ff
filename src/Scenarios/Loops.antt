-- ===== src/Scenarios/Loops.antt =====
-- The loops of the worker and of the consumer, told to stop in their second round.
use store_order.Base.{ℕ, suc, ◌≡◌, ◌≤◌, ◌*◌, ◌+◌, refl, ok, false, Bool, nat_eq, if◌then◌else◌, pos}
use store_order.Schema.{Time, OutboxEventModel}
use store_order.Runtime.{Draw}
use store_order.Prisma.Memory.{memory, Memory}
use store_order.Prisma.Memory.Laws.{memory_laws}
use store_order.Outbox.{KafkaWriter, Worker}
use store_order.Outbox.Running
use store_order.Outbox.Running.{Selected, stopped, ticked, CountingLaws, run-bounded, batch_limit}
use store_order.Consumer
use store_order.Consumer.Running.{ended, run_until, run_until-ends}
use store_order.Scenarios.Fixtures.{surroundings, draw, shop}
use store_order.Scenarios.Deliveries.{decoder, reader}

-- A broker that counts what it is handed.
abbrev counter : KafkaWriter
counter = record { State = ℕ; write_messages = λ m n. (ok tt, suc n) }

abbrev counter_laws : CountingLaws counter
counter_laws = record { writes = λ n. n; one_more = λ m n. refl }

abbrev worker : Worker
worker = record { poll_interval = pos 200_000_000; batch_size = pos 50 }

abbrev second_round : ℕ → Bool
second_round i = nat_eq i 1

abbrev choices : ℕ → Selected
choices i = if second_round i then stopped else ticked

abbrev clocks : ℕ → OutboxEventModel → Time
clocks i event = 3

run-bounded_example :
    (world : Memory × ℕ) × (Running.run memory counter 2 choices clocks worker (shop, 0)
      ≡ Running.ended world)
    × (world.1 ≤ 1 * 50 + 0)
run-bounded_example =
    run-bounded memory counter memory_laws counter_laws 1 choices clocks worker (shop, 0) refl

abbrev draws : ℕ → ℕ → Draw
draws i j = draw

run_until-ends_example :
    (k : ℕ) × (k ≤ 1)
    × (run_until memory surroundings decoder reader 2 second_round (λ i. false) draws (shop, (0, 0))
        ≡ ended (Consumer.run memory surroundings decoder reader k draws (shop, (0, 0))))
run_until-ends_example =
    run_until-ends memory surroundings decoder reader 1 second_round (λ i. false) draws
      (shop, (0, 0)) refl
