-- ===== src/LifeCycle.antt =====
-- The life of an order over any sequence of calls of internal/service/order_service.go: what each
-- call permits, and the abstract machine that these permissions make.
pub mod Rows
pub mod Cleanups
pub mod Calls
pub mod Notices
pub mod Removals
pub mod Refinement
pub mod Interleaving
use store_order.Base.{
  ℕ, String, List, [], ◌∷◌, Option, none, some, Bool, true, false, ◌||◌, if◌then◌else◌, Result, ◌≡◌,
  ◌⊎◌, map,
}
use store_order.Schema.{Time, Float64, OrderStatus, pending_payment, cancelled, paid, expired}
use store_order.Runtime.{Runtime, Draw}
use store_order.Prisma.{Prisma}
use store_order.Product.{ItemOrderRequest, ValidatedItem}
use store_order.Midtrans.{
  WebhookNotification, verify_signature, determine_order_status, SnapTransactionRequest,
  SnapResponse,
}
use store_order.Service.Checkout.{CheckoutRequest, CheckoutDraws, checkout}
use store_order.Service.Customer.{cancel_customer_order}
use store_order.Service.Webhook.{process_midtrans_webhook}
use store_order.Service.Admin.{admin_update_status, target_of}
use store_order.Service.Simulate.{
  simulate_payment_success, simulate_order_cancel, simulate_order_expire,
}
use store_order.Service.Users.{handle_user_deleted, handle_user_banned}

-- What a call may do to the status of a stored order.
pub data Permit : Type 0 where
  nothing : Permit
  cancel_unpaid : Permit
  move_to : OrderStatus → Permit

abbrev pub Permits : Permit → OrderStatus → OrderStatus → Type 0
Permits nothing a b = ⊥
Permits cancel_unpaid a b = (a ≡ pending_payment) × (b ≡ cancelled)
Permits (move_to target) a b = b ≡ target

-- The abstract machine: at each permission in turn the status stays or makes the permitted step.
pub data Course : List Permit → OrderStatus → OrderStatus → Type 0 where
  stop : (a : OrderStatus) → Course [] a a
  stays : (q : Permit) (qs : List Permit) (a b : OrderStatus) → Course qs a b → Course (q ∷ qs) a b
  moves :
      (q : Permit) (qs : List Permit) (a b c : OrderStatus)
      → Permits q a b
      → Course qs b c
      → Course (q ∷ qs) a c

-- The calls that write, with what each reads from the clock and draws at random.
pub data Call : Type 0 where
  places : CheckoutDraws → String → String → CheckoutRequest → Call
  cancels : Draw → String → String → Call
  notifies : Draw → Time → WebhookNotification → Call
  updates : Draw → String → String → String → String → Call
  simulates_success : Draw → String → Time → String → Call
  simulates_cancel : Draw → String → Call
  simulates_expire : Draw → String → Call
  deletes_user : (ℕ → Draw) → String → Call
  bans_user : (ℕ → Draw) → String → String → Call

abbrev pub notified : OrderStatus × Bool → Permit
notified (target, known) = if known then move_to target else nothing

abbrev pub requested : Option OrderStatus → Permit
requested none = nothing
requested (some target) = move_to target

module _ (rt : Runtime) (key : String) (dev : Bool) where
  -- a notification counts only if it verifies, or in development mode
  abbrev pub permit_of : Call → Permit
  permit_of (places draws user email req) = nothing
  permit_of (cancels draw user id) = cancel_unpaid
  permit_of (notifies draw now notif) =
      if dev || verify_signature rt key notif
      then notified (determine_order_status rt notif)
      else nothing
  permit_of (updates draw id status courier receipt) = requested (target_of rt status)
  permit_of (simulates_success draw short_id now id) = move_to paid
  permit_of (simulates_cancel draw id) = cancel_unpaid
  permit_of (simulates_expire draw id) = move_to expired
  permit_of (deletes_user draws user) = cancel_unpaid
  permit_of (bans_user draws user reason) = cancel_unpaid

  module _ (p : Prisma) (products : List ItemOrderRequest → Result (List ValidatedItem × Float64))
      (snap : SnapTransactionRequest → Result SnapResponse) where
    -- the state after a call, whatever it returns
    abbrev pub perform : Call → p.State → p.State
    perform (places draws user email req) s = (checkout p rt products snap draws user email req s).1
    perform (cancels draw user id) s = (cancel_customer_order p rt draw user id s).1
    perform (notifies draw now notif) s = (process_midtrans_webhook p rt key dev draw now notif s).1
    perform (updates draw id status courier receipt) s =
        (admin_update_status p rt draw id status courier receipt s).1
    perform (simulates_success draw short_id now id) s =
        (simulate_payment_success p rt draw short_id now id s).1
    perform (simulates_cancel draw id) s = (simulate_order_cancel p rt draw id s).1
    perform (simulates_expire draw id) s = (simulate_order_expire p rt draw id s).1
    perform (deletes_user draws user) s = (handle_user_deleted p rt draws user s).1
    perform (bans_user draws user reason) s = (handle_user_banned p rt draws user reason s).1

    unfoldable pub perform_all : List Call → p.State → p.State
    perform_all [] s = s
    perform_all (call ∷ calls) s = perform_all calls (perform call s)
