-- ===== src/LifeCycle/Interleaving.antt =====
-- Requests at once: the methods of internal/service/order_service.go that look an order up and then
-- change it, cut in two between the lookup and the rest, with other calls in between.
pub mod Races
pub mod Traces
use store_order.Base.{
  ℕ, zero, suc, String, Option, none, some, List, [], ◌∷◌, Bool, ◌||◌, if◌then◌else◌, Result, ok,
  err,
}
use store_order.Schema.{Float64, OrderModel}
use store_order.Runtime.{Runtime}
use store_order.Prisma.{Prisma, OrderKey, by_id, by_order_number}
use store_order.Product.{ItemOrderRequest, ValidatedItem}
use store_order.Midtrans.{
  verify_signature, determine_order_status, SnapTransactionRequest, SnapResponse,
}
use store_order.Service.Customer.{cancel_found}
use store_order.Service.Webhook.{settle}
use store_order.Service.Admin.{update_found}
use store_order.Service.Simulate.{pay_found, expire_found}
use store_order.LifeCycle.{
  Call, places, cancels, notifies, updates, simulates_success, simulates_cancel, simulates_expire,
  deletes_user, bans_user, perform,
}

-- a call that has read its order and not yet gone on
pub record InFlight : Type 0 where
  pub call : Call
  pub order : OrderModel

-- A call that runs alone, the first part of one, and the second part of the one at a place among those
-- that wait.
pub data Step : Type 0 where
  whole : Call → Step
  begins : Call → Step
  resumes : ℕ → Step

-- the calls of a schedule
abbrev pub calls_of : List Step → List Call
calls_of [] = []
calls_of (whole call ∷ steps) = call ∷ calls_of steps
calls_of (begins call ∷ steps) = call ∷ calls_of steps
calls_of (resumes i ∷ steps) = calls_of steps

abbrev pub push : Call → Result (Option OrderModel) → List InFlight → List InFlight
push call (ok (some order)) flights = record { call = call; order = order } ∷ flights
push call _ flights = flights

module _ (rt : Runtime) (key : String) (dev : Bool) where
  -- what a call looks up; a notification is checked before
  abbrev pub lookup_key : Call → Option OrderKey
  lookup_key (cancels draw user id) = some (by_id id)
  lookup_key (notifies draw now notif) =
      if dev || verify_signature rt key notif then some (by_order_number notif.order_id) else none
  lookup_key (updates draw id status courier receipt) = some (by_id id)
  lookup_key (simulates_success draw short_id now id) = some (by_id id)
  lookup_key (simulates_cancel draw id) = some (by_id id)
  lookup_key (simulates_expire draw id) = some (by_id id)
  lookup_key _ = none

  module _ (p : Prisma) (products : List ItemOrderRequest → Result (List ValidatedItem × Float64))
      (snap : SnapTransactionRequest → Result SnapResponse) where
    abbrev pub World : Type 0
    World = p.State × List InFlight

    abbrev pub begin_at : Call → Option OrderKey → World → World
    begin_at call none world = world
    begin_at call (some k) (s, flights) =
        let (found, s') = p.find_order k s in (s', push call found flights)

    -- the second part of a call, with the order that the first has read
    abbrev pub go_on : Call → OrderModel → p.State → p.State
    go_on (cancels draw user id) o s = (cancel_found p rt draw user id o s).1
    go_on (notifies draw now notif) o s =
        (settle p rt key dev draw now notif (determine_order_status rt notif) o s).1
    go_on (updates draw id status courier receipt) o s =
        (update_found p rt draw id status courier receipt o s).1
    go_on (simulates_success draw short_id now id) o s = (pay_found p rt draw short_id now id o s).1
    go_on (simulates_cancel draw id) o s = (cancel_found p rt draw "" id o s).1
    go_on (simulates_expire draw id) o s = (expire_found p rt draw id o s).1
    go_on _ o s = s

    abbrev pub resume : ℕ → List InFlight → p.State → World
    resume i [] s = (s, [])
    resume zero (flight ∷ flights) s = (go_on flight.call flight.order s, flights)
    resume (suc i) (flight ∷ flights) s = let (s', rest) = resume i flights s in (s', flight ∷ rest)

    abbrev pub take_step : Step → World → World
    take_step (whole call) (s, flights) = (perform rt key dev p products snap call s, flights)
    take_step (begins call) world = begin_at call (lookup_key call) world
    take_step (resumes i) (s, flights) = resume i flights s

    unfoldable pub run : List Step → World → World
    run [] world = world
    run (step ∷ steps) world = run steps (take_step step world)
