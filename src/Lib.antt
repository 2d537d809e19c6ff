-- ===== src/Lib.antt =====
-- A model of the store_order service, which takes orders, follows their payment and tells the other
-- services of a shop about them, with the theorems that make its parts correct.
--
-- The parts, with the files of the repository that they stand for:
--   Schema, Prisma     prisma/schema.prisma. The database client that is generated from it is a
--                      parameter, the record Prisma of queries on an abstract state. Prisma/Tables has
--                      what is documented of each query (PrismaLaws), Prisma/Memory an instance.
--   Repository         internal/repository/models.go. Repository/Orders is order_repository.go and
--                      Repository/Outbox is outbox_repository.go: each method is its queries one after
--                      the other, in the order of the source, with no transaction around them.
--   Product            internal/integration/product/client.go (GetProductByID, ValidateItems).
--   Midtrans           internal/integration/midtrans/client.go and signature.go.
--   Config             internal/config/config.go; the environment is a parameter.
--   Runtime            DomainEventEnvelope, and what the program takes from Go: floats, the clock,
--                      random identifiers, JSON, SHA-512 and the Unicode tables, as a parameter.
--   Service            internal/service/order_service.go: Checkout, Customer (GetCustomerOrder,
--                      ListCustomerOrders, CancelCustomerOrder), Webhook (ProcessMidtransWebhook), Admin
--                      (AdminListOrders, AdminUpdateStatus), Simulate, Users (HandleUserDeleted,
--                      HandleUserBanned), Events (buildOrderEventData) and Response (ToOrderResponse).
--   LifeCycle          what each writing method of the service permits for the status of an order, as an
--                      abstract machine, and runs of calls against it. LifeCycle/Interleaving cuts the
--                      methods that read an order and then change it after the read.
--   Outbox             internal/outbox/worker.go and internal/kafka/producer.go: processBatch and
--                      Publish, Outbox/Running the loop, Outbox/Dialer the dialled address.
--   Consumer           internal/consumer/user_event_consumer.go, Consumer/Running the loop with its
--                      signals.
--   Grpc               internal/grpc/mapper.go and order_service.go, Grpc/Listening server.go.
--   RateLimit          internal/ratelimit/limiter.go with its Lua script.
--   Http               internal/middleware (auth.go, ratelimit.go; Http/Common is common.go) and
--                      internal/handler.
--   Router             internal/router/router.go. Router/Mux has what is taken of chi and cors.
--   Server             cmd/server/main.go and internal/db/lifecycle.go: the parts as they are built from
--                      the configuration, and the handler of the HTTP server.
--   Base               texts, lists, integers and errors as values; Scenarios runs the parts on concrete
--                      inputs.
--
-- How they interact. The service changes orders only through Repository/Orders, which stores each change
-- together with an outbox entry. The worker reads the pending entries and publishes them. The consumer
-- hands the events on users to Service/Users, and the gRPC service reads the orders of a user. A request
-- over HTTP goes through the chain of Router, whose handlers call the service; its state is that of the
-- database beside that of Redis.
--
-- How the code is rendered. A method that returns `(T, error)` is an action: a function of the state that
-- returns `ok` or `err` with the error's text, and the next state, which is there after an error too. A
-- pointer that may be nil is an Option. What a call reads from the clock or draws at random is an
-- argument. A float64 is its bits, and float arithmetic is the Runtime's. The database client writes times
-- to the millisecond (to_millis of Schema). The product service gives one answer to one request
-- throughout a call: `send` of Product is a function. Log lines leave no trace.
--
-- Bounds and termination. Every loop of the code goes over a list and is recursion on it, but for the two
-- endless ones, of the consumer and of the worker. These run for a given number of rounds, with what ends
-- them as a function of the round. `int32(len(orders))` of the gRPC service keeps its wrap-around. The
-- windows of the rate limiter are natural numbers, since every rule has a positive one.
--
-- What is not modelled: goroutines, connections, the listening of the servers, operating system signals,
-- and the vendored packages. Requests at once are interleaved at one place, between the lookup of an order
-- and what follows it; elsewhere a call runs to its end. No handler of the program panics in the model, so
-- the recoverer passes their responses on. What a committed offset means to the broker is not modelled
-- either, since the reader commits once a second, after the call has returned. What the code relies on of
-- Redis, Kafka, the router and the database is stated as named laws (RedisLaws, WriterLaws, CountingLaws,
-- ChiLaws, PrismaLaws), and each of them has an instance in Prisma/Memory or Scenarios.
pub mod Base
pub mod Config
pub mod Schema
pub mod Prisma
pub mod Router
pub mod Runtime
pub mod Repository
pub mod Product
pub mod Midtrans
pub mod Outbox
pub mod RateLimit
pub mod Service
pub mod Consumer
pub mod Grpc
pub mod Http
pub mod Server
pub mod LifeCycle
mod Scenarios
