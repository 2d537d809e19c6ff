-- ===== src/LifeCycle/Removals.antt =====
-- The events on users against what they permit: only the cancellation of unpaid orders.
use store_order.Base.{
  lift, wrap, ◌>>=◌, ℕ, String, List, Result, inl, inr, Bool-cases, Action, wrapped, is_empty,
  trim_space, pos, ◌<>◌,
}
use store_order.Schema.{OrderModel}
use store_order.Runtime.{Runtime, Draw}
use store_order.Prisma.{Prisma}
use store_order.Prisma.Tables.{PrismaLaws}
use store_order.Prisma.Changes.{Changes, Changes_refl, continue-Within}
use store_order.Repository.{OutboxCreateInput}
use store_order.Repository.Orders.{
  list_orders_by_user_id, anonymize_user_orders_and_cancel_unpaid, cancel_unpaid_user_orders,
}
use store_order.Repository.Orders.Changes.{list_orders-Within}
use store_order.Service.Users.{
  handle_user_deleted, clean_up_deleted, handle_user_banned, clean_up_banned, cancellation_events,
  anonymized_email, ban_reason, page_size,
}
use store_order.LifeCycle.{Permit, cancel_unpaid}
use store_order.LifeCycle.Rows.{Follows, Follows-IsPreorder}
use store_order.LifeCycle.Cleanups.{anonymize-Within, cancel_unpaid-Within}
use store_order.LifeCycle.Calls.{Within}

module _ (p : Prisma) (rt : Runtime) (l : PrismaLaws p) where
  open l use {tables}

  abbrev nothing_done : (q : Permit) (s : p.State) → Changes (Follows q) (tables s) (tables s)
  nothing_done q s = Changes_refl (Follows q) (Follows-IsPreorder q) (tables s)

  -- the clean-up of a user's orders, once the events are built
  module _ (user : String) where
    cleanup-Within :
        (text failed : String) (events : List OrderModel → Result (List OutboxCreateInput))
        (stored : List OutboxCreateInput → Action p.State (Unit {0})) (s : p.State)
        → ((es : List OutboxCreateInput) (s' : p.State)
            → Within p rt l cancel_unpaid (stored es) s')
        → Within p rt l cancel_unpaid
            (wrap text (list_orders_by_user_id p user (pos page_size) (pos 0)) >>= λ listed.
              lift (events listed.0) >>= λ es. wrap failed (stored es))
            s
    cleanup-Within text failed events stored s h =
        let query = list_orders_by_user_id p user (pos page_size) (pos 0) s in
        let q = Follows cancel_unpaid in
        let pre = Follows-IsPreorder cancel_unpaid in
        continue-Within q pre p l (wrapped text query.0)
          (λ listed. lift (events listed.0) >>= λ es. wrap failed (stored es)) s query.1
          (list_orders-Within q pre p l user (pos page_size) (pos 0) s)
          λ listed _.
            continue-Within q pre p l (events listed.0) (λ es. wrap failed (stored es)) query.1
              query.1 (nothing_done cancel_unpaid query.1) λ es _. h es query.1

  pub deleted-Within :
      (draws : ℕ → Draw) (user : String) (s : p.State)
      → Within p rt l cancel_unpaid (handle_user_deleted p rt draws user) s
  unfolding handle_user_deleted clean_up_deleted
  deleted-Within draws user_id s = elim (Bool-cases (is_empty (trim_space user_id))) [
    | inl blank ↦ rw blank (nothing_done cancel_unpaid s)
    | inr named ↦
        let user = trim_space user_id in
        rw named (
          cleanup-Within user ("failed to fetch orders for user " <> user)
            ("failed to anonymize and cancel orders for user " <> user)
            (cancellation_events rt draws "failed to marshal cancellation outbox event for order "
              "User account deleted")
            (anonymize_user_orders_and_cancel_unpaid p user (anonymized_email user)) s
            (anonymize-Within p l user (anonymized_email user)))
  ]

  pub banned-Within :
      (draws : ℕ → Draw) (user reason : String) (s : p.State)
      → Within p rt l cancel_unpaid (handle_user_banned p rt draws user reason) s
  unfolding handle_user_banned clean_up_banned
  banned-Within draws user_id reason s = elim (Bool-cases (is_empty (trim_space user_id))) [
    | inl blank ↦ rw blank (nothing_done cancel_unpaid s)
    | inr named ↦
        let user = trim_space user_id in
        rw named (
          cleanup-Within user ("failed to fetch orders for banned user " <> user)
            ("failed to cancel unpaid orders for banned user " <> user)
            (cancellation_events rt draws
              "failed to marshal cancellation outbox event for banned user order "
              (ban_reason reason))
            (cancel_unpaid_user_orders p user) s (cancel_unpaid-Within p l user))
  ]
