-- ===== src/LifeCycle/Refinement.antt =====
-- The calls of internal/service/order_service.go against the abstract machine of LifeCycle.
use store_order.Base.{
  String, ◌≡◌, ◌≢◌, sym, ap, subst, List, [], ◌∷◌, map, inl, inr, ◌⊎◌, Bool, true, Result, arith,
  Bool-cases, ◌||◌,
}
use store_order.Schema.{Float64, OrderStatus, OrderModel, paid}
use store_order.Runtime.{Runtime}
use store_order.Prisma.{Prisma}
use store_order.Prisma.Tables.{PrismaLaws}
use store_order.Prisma.Changes.{Changes}
use store_order.Product.{ItemOrderRequest, ValidatedItem}
use store_order.Midtrans.{
  SnapTransactionRequest, SnapResponse, verify_signature, determine_order_status,
}
use store_order.Service.Simulate.{simulate_order_cancel}
use store_order.Service.Admin.{target_of}
use store_order.LifeCycle.{
  Permit, Permits, nothing, cancel_unpaid, move_to, Course, stop, stays, moves, Call, places,
  cancels, notifies, updates, simulates_success, simulates_cancel, simulates_expire, deletes_user,
  bans_user, permit_of, perform, perform_all, requested, notified,
}
use store_order.LifeCycle.Rows.{Follows, Follows-IsPreorder, IsSameOrder, IsSameOrder-trans}
use store_order.LifeCycle.Calls.{checkout-Within, cancel-Within}
use store_order.LifeCycle.Notices.{webhook-Within, admin-Within, success-Within, expire-Within}
use store_order.LifeCycle.Removals.{deleted-Within, banned-Within}

-- One stored order before and after calls with these permissions.
pub record Lives (qs : List Permit) (o o' : OrderModel) : Type 0 where
  pub same : IsSameOrder o o'
  pub path : Course qs o.status o'.status

pub Permits-paid : (q : Permit) (a : OrderStatus) → Permits q a paid → q ≡ move_to paid
Permits-paid nothing a h = elim h [ ]
Permits-paid cancel_unpaid a h = absurd (cc)
Permits-paid (move_to target) a h = ap move_to (sym h)

module _ (p : Prisma) (rt : Runtime) (key : String) (dev : Bool)
    (products : List ItemOrderRequest → Result (List ValidatedItem × Float64))
    (snap : SnapTransactionRequest → Result SnapResponse) (l : PrismaLaws p) where
  open l use {tables}

  -- Each call keeps to its permission, on every path.
  pub perform-Follows :
      (call : Call) (s : p.State)
      → Changes
          (Follows (permit_of rt key dev call))
          (tables s)
          (tables (perform rt key dev p products snap call s))
  unfolding simulate_order_cancel
  perform-Follows (places draws user email req) s =
      checkout-Within p rt l products snap draws user email req s
  perform-Follows (cancels draw user id) s = cancel-Within p rt l draw user id s
  perform-Follows (notifies draw now notif) s = webhook-Within p rt l key dev draw now notif s
  perform-Follows (updates draw id status courier receipt) s =
      admin-Within p rt l draw id status courier receipt s
  perform-Follows (simulates_success draw short_id now id) s =
      success-Within p rt l draw short_id now id s
  perform-Follows (simulates_cancel draw id) s = cancel-Within p rt l draw "" id s
  perform-Follows (simulates_expire draw id) s = expire-Within p rt l draw id s
  perform-Follows (deletes_user draws user) s = deleted-Within p rt l draws user s
  perform-Follows (bans_user draws user reason) s = banned-Within p rt l draws user reason s

  extended :
      (q : Permit) (qs : List Permit) (a b c : OrderStatus)
      → (b ≡ a) ⊎ Permits q a b
      → Course qs b c
      → Course (q ∷ qs) a c
  extended q qs a b c (inl e) path = stays q qs a c (subst (λ x. Course qs x c) e path)
  extended q qs a b c (inr h) path = moves q qs a b c h path

  -- Over any sequence of calls, whatever each of them returns, every stored order stays stored, with its
  -- number, owner, total and time of creation, and its status takes, call by call, at most the step
  -- that the call permits: a checkout none, a cancellation and the clean-ups of a user that of an
  -- unpaid order to CANCELLED, a notification that to the status it tells of, if its signature
  -- verifies or the service is in development mode, an administrator's update that to the status
  -- it names, and the simulations those to PAID, CANCELLED (from unpaid) and EXPIRED.
  pub perform_all-Lives :
      (calls : List Call) (s : p.State)
      → Changes
          (Lives (map (permit_of rt key dev) calls))
          (tables s)
          (tables (perform_all rt key dev p products snap calls s))
  unfolding perform_all
  perform_all-Lives [] s = record {
    row = λ id o here.
        (o, here, record { same = ((Follows-IsPreorder nothing).same o).0; path = stop o.status });
  }
  perform_all-Lives (call ∷ calls) s = record {
    row = λ id o here.
        let (o1, there, h) = (perform-Follows call s).row id o here in
        let (o2, last, k) =
          (perform_all-Lives calls (perform rt key dev p products snap call s)).row id o1 there in
        (
          o2,
          last,
          record {
            same = IsSameOrder-trans h.0 k.same;
            path =
                extended (permit_of rt key dev call) (map (permit_of rt key dev) calls) o.status
                  o1.status o2.status h.1 k.path;
          },
        );
  }

  -- The calls that can make an order paid.
  abbrev pub Pays : Call → Type 0
  Pays (notifies draw now notif) =
      ((dev ≡ true) ⊎ (verify_signature rt key notif ≡ true))
      × (determine_order_status rt notif ≡ (paid, true))
  Pays (simulates_success draw short_id now id) = Unit
  Pays _ = ⊥

  target_of-ne-paid : (status : String) → requested (target_of rt status) ≢ move_to paid
  unfolding target_of
  target_of-ne-paid status h = absurd (ground arith)

  notified-paid : (d : OrderStatus × Bool) → notified d ≡ move_to paid → d ≡ (paid, true)
  notified-paid (st, known) h = ground arith

  pub permit_of-paid : (call : Call) → permit_of rt key dev call ≡ move_to paid → Pays call
  permit_of-paid (places draws user email req) h = absurd (cc)
  permit_of-paid (cancels draw user id) h = absurd (cc)
  permit_of-paid (notifies draw now notif) h =
      elim (Bool-cases (dev || verify_signature rt key notif)) [
        | inl genuine ↦
            (ground arith, notified-paid (determine_order_status rt notif) (rw genuine at h))
        | inr forged ↦ absurd (ground arith)
      ]
  permit_of-paid (updates draw id status courier receipt) h = absurd (target_of-ne-paid status h)
  permit_of-paid (simulates_success draw short_id now id) h = tt
  permit_of-paid (simulates_cancel draw id) h = absurd (cc)
  permit_of-paid (simulates_expire draw id) h = absurd (cc)
  permit_of-paid (deletes_user draws user) h = absurd (cc)
  permit_of-paid (bans_user draws user reason) h = absurd (cc)
