-- ===== src/Server/Shutdown.antt =====
-- How cmd/server/main.go stops: the calls after the signal, and then the deferred ones, the last
-- registered first.
use store_order.Base.{arith, ◌≡◌, List, [], ◌∷◌, ◌++◌, Bool, true, false, if◌then◌else◌}

pub data Stop : Type 0 where
  cancel_consumer close_consumer stop_grpc stop_worker cancel_worker shutdown_http : Stop
  close_limiter close_producer disconnect_database : Stop

-- what the program calls once it is told to stop
abbrev pub stop_calls : List Stop
stop_calls =
    cancel_consumer ∷ close_consumer ∷ stop_grpc ∷ stop_worker ∷ cancel_worker ∷ shutdown_http ∷ []

-- the deferred calls; that of the limiter is there if the limiter is
abbrev pub deferred : Bool → List Stop
deferred has_limiter =
    (if has_limiter then close_limiter ∷ [] else [])
    ++ cancel_consumer ∷ cancel_worker ∷ close_producer ∷ disconnect_database ∷ []

unfoldable pub shutdown : Bool → List Stop
shutdown has_limiter = stop_calls ++ deferred has_limiter

-- A part that needs another one to do its work: the loops and the servers need the database, the worker
-- also the producer, and the HTTP server the limiter.
abbrev needs : Stop → Stop → Bool
needs close_consumer disconnect_database = true
needs stop_grpc disconnect_database = true
needs stop_worker disconnect_database = true
needs shutdown_http disconnect_database = true
needs stop_worker close_producer = true
needs shutdown_http close_limiter = true
needs _ _ = false

-- None of the parts that are stopped later needs this one.
abbrev IsFree : Stop → List Stop → Type 0
IsFree part [] = Unit
IsFree part (later ∷ rest) = (needs later part ≡ false) × IsFree part rest

abbrev IsOrdered : List Stop → Type 0
IsOrdered [] = Unit
IsOrdered (part ∷ rest) = IsFree part rest × IsOrdered rest

-- With a limiter and without, no part is stopped before one that needs it.
shutdown-IsOrdered : (has_limiter : Bool) → IsOrdered (shutdown has_limiter)
unfolding shutdown
shutdown-IsOrdered true = ground arith
shutdown-IsOrdered false = ground arith
