-- ===== src/Server/Workers.antt =====
-- The worker of the outbox and the consumer of the users' events, as cmd/server/main.go builds them.
use store_order.Base.{pos}
use store_order.Config.{Config}
use store_order.Outbox.{Worker, new_worker}
use store_order.Outbox.Dialer.{Net}
use store_order.Consumer.{MessageReader}
use store_order.Consumer.Running.{ReaderConfig, UserEventConsumer, new_user_event_consumer}

-- every 200 milliseconds, fifty events
unfoldable pub outbox_worker : Worker
outbox_worker = new_worker (pos 200_000_000) (pos 50)

unfoldable pub user_event_consumer :
    Net → (ReaderConfig → MessageReader) → Config → UserEventConsumer
user_event_consumer net new_reader cfg =
    new_user_event_consumer net new_reader cfg.kafka_brokers cfg.kafka_topic_user_events
      cfg.kafka_user_events_group_id cfg.dev
