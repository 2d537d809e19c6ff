-- ===== src/Outbox/Dialer.antt =====
-- newSmartDialer of internal/kafka/producer.go, which internal/consumer/user_event_consumer.go has
-- once more: the address that is dialled in place of a broker's. Package net is a parameter. NewProducer
-- hands the writer its configuration.
use store_order.Base.{
  List, ℕ, true, false, Bool, String, Result, ok, err, ◌||◌, ◌==◌, if◌then◌else◌,
}

pub record Net : Type 0 where
  pub split_host_port : String → Result (String × String)
  pub lookup_host : String → Result (Unit {0})
  pub join_host_port : String → String → String

-- a host that is known stays; the containers' names stand for this machine where they are not
abbrev local_or : Net → String → String → String → Result (Unit {0}) → String
local_or net addr host port (ok _) = addr
local_or net addr host port (err e) =
    if host == "kafka" || host == "broker" then net.join_host_port "127.0.0.1" port else addr

abbrev redirected : Net → String → Result (String × String) → String
redirected net addr (err e) = addr
redirected net addr (ok (host, port)) = local_or net addr host port (net.lookup_host host)

unfoldable pub new_smart_dialer : Net → String → String
new_smart_dialer net addr = redirected net addr (net.split_host_port addr)

-- kafka.Writer with its Transport; the balancer is LeastBytes, and the timeout in nanoseconds
pub record WriterConfig : Type 0 where
  pub brokers : List String
  pub write_timeout : ℕ
  pub requires_one_ack : Bool
  pub async : Bool
  pub creates_topics : Bool
  pub dial : String → String

unfoldable pub new_producer : Net → List String → WriterConfig
unfolding new_smart_dialer
new_producer net brokers = record {
  brokers = brokers;
  write_timeout = 5_000_000_000;
  requires_one_ack = true;
  async = false;
  creates_topics = true;
  dial = new_smart_dialer net;
}
