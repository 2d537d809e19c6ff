-- ===== src/Grpc/Listening.antt =====
-- internal/grpc/server.go: binding the port and serving. L is the type of a listener; net.Listen and
-- the server of the gRPC library are parameters.
use store_order.Base.{String, Option, some, Result, ok, err, ◌<>◌}

-- how Serve returns: with nil, with ErrServerStopped, or with another error
pub data Served : Type 0 where
  finished server_stopped : Served
  broken : String → Served

pub record Server (L : Type 0) : Type 0 where
  pub listen : String → Result L
  pub serve : L → Served
  pub port : String
  pub listener : Option L

-- being stopped is not an error
abbrev served : Served → Result (Unit {0})
served finished = ok tt
served server_stopped = ok tt
served (broken e) = err ("gRPC server serve error: " <> e)

unfoldable pub start : {L : Type 0} → Server L → Result (Unit {0}) × Server L
start server =
    let addr = ":" <> server.port in
    elim (server.listen addr) [
      | err e ↦ (err ("failed to bind gRPC listener on " <> addr <> ": " <> e), server)
      | ok listener ↦ (served (server.serve listener), record server { listener = some listener })
    ]
