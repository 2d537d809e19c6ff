-- ===== src/LifeCycle/Notices.antt =====
-- ... and those of the payment gateway, of the administrators and of the simulations.
use store_order.Base.{
  String, ◌≡◌, refl, Option, none, some, Result, ok, err, inl, inr, Bool, true, false, Bool-cases,
}
use store_order.Schema.{Time, OrderStatus, OrderModel, same_status, paid, expired}
use store_order.Runtime.{Runtime, Draw}
use store_order.Prisma.{Prisma, by_order_number}
use store_order.Prisma.Tables.{PrismaLaws}
use store_order.Prisma.Changes.{Changes, Changes_refl, Changes_trans, find_order-Within}
use store_order.Repository.Orders.{get_order_by_order_number, update_order_status_with_outbox}
use store_order.Midtrans.{WebhookNotification, verify_signature, determine_order_status}
use store_order.Service.Response.{response_of}
use store_order.Service.Webhook.{
  process_midtrans_webhook, accept_webhook, settle, apply_notification, payment_meta,
  webhook_outbox, event_of,
}
use store_order.Service.Admin.{
  admin_update_status, update_found, target_of, shipping_of, admin_outbox, admin_event_of,
}
use store_order.Service.Simulate.{
  simulate_payment_success, pay_found, simulated_meta, paid_outbox, simulate_order_expire,
  expire_found, expired_outbox,
}
use store_order.LifeCycle.{Permit, nothing, move_to, permit_of, notifies, notified, requested}
use store_order.LifeCycle.Rows.{Follows, Follows-IsPreorder}
use store_order.Service.Changes.{with_order-Within, pure-Within}
use store_order.LifeCycle.Calls.{Within, update-Within}

module _ (p : Prisma) (rt : Runtime) (l : PrismaLaws p) where
  open l use {tables}

  abbrev nothing_done : (q : Permit) (s : p.State) → Changes (Follows q) (tables s) (tables s)
  nothing_done q s = Changes_refl (Follows q) (Follows-IsPreorder q) (tables s)

  apply-Within :
      (key : String) (dev : Bool) (draw : Draw) (now : Time) (notif : WebhookNotification)
      (target : OrderStatus) (o : OrderModel) (s : p.State)
      → Within p rt l (move_to target) (apply_notification p rt key dev draw now notif target o) s
  unfolding apply_notification
  apply-Within key dev draw now notif target o s =
      pure-Within (Follows (move_to target)) (Follows-IsPreorder (move_to target)) p l
        (update_order_status_with_outbox p o.id target (some (payment_meta notif now)) none
          (webhook_outbox rt draw notif target now o (event_of target)))
        (λ _. tt) s
        (update-Within p rt l (move_to target) o.id target (some (payment_meta notif now)) none
          (webhook_outbox rt draw notif target now o (event_of target)) s λ r here. inr refl)

  pub settle-Within :
      (key : String) (dev : Bool) (draw : Draw) (now : Time) (notif : WebhookNotification)
      (d : OrderStatus × Bool) (o : OrderModel) (s : p.State)
      → Within p rt l (notified d) (settle p rt key dev draw now notif d o) s
  unfolding settle
  settle-Within key dev draw now notif (target, false) o s = nothing_done nothing s
  settle-Within key dev draw now notif (target, true) o s =
      elim (Bool-cases (same_status o.status target)) [
        | inl same ↦ rw same (nothing_done (move_to target) s)
        | inr other ↦ rw other (apply-Within key dev draw now notif target o s)
      ]

  accept-Within :
      (key : String) (dev : Bool) (draw : Draw) (now : Time) (notif : WebhookNotification)
      (s : p.State)
      → Within p rt l
          (notified (determine_order_status rt notif))
          (accept_webhook p rt key dev draw now notif)
          s
  unfolding accept_webhook get_order_by_order_number
  accept-Within key dev draw now notif s =
      go (p.find_order (by_order_number notif.order_id) s).0 refl
    where
      q : Permit
      q = notified (determine_order_status rt notif)

      read :
          Changes
            (Follows q)
            (tables s)
            (tables (p.find_order (by_order_number notif.order_id) s).1)
      read =
          find_order-Within (Follows q) (Follows-IsPreorder q) p l (by_order_number notif.order_id)
            s

      go :
          (x : Result (Option OrderModel))
          → (p.find_order (by_order_number notif.order_id) s).0 ≡ x
          → Within p rt l q (accept_webhook p rt key dev draw now notif) s
      go (err e) same = rw same read
      go (ok none) same = rw same read
      go (ok (some o)) same = rw same (
          Changes_trans (Follows q) (Follows-IsPreorder q) read (
            settle-Within key dev draw now notif (determine_order_status rt notif) o
              (p.find_order (by_order_number notif.order_id) s).1))

  pub webhook-Within :
      (key : String) (dev : Bool) (draw : Draw) (now : Time) (notif : WebhookNotification)
      (s : p.State)
      → Within p rt l
          (permit_of rt key dev (notifies draw now notif))
          (process_midtrans_webhook p rt key dev draw now notif)
          s
  unfolding process_midtrans_webhook
  webhook-Within key true draw now notif s = accept-Within key true draw now notif s
  webhook-Within key false draw now notif s = elim (Bool-cases (verify_signature rt key notif)) [
    | inl genuine ↦ rw genuine (accept-Within key false draw now notif s)
    | inr forged ↦ rw forged (nothing_done nothing s)
  ]

  pub admin_found-Within :
      (draw : Draw) (id status courier receipt : String) (o : OrderModel) (s : p.State)
      → Within p rt l
          (requested (target_of rt status))
          (update_found p rt draw id status courier receipt o)
          s
  unfolding update_found
  admin_found-Within draw id status courier receipt o s = go (target_of rt status) refl
    where
      go :
          (t : Option OrderStatus)
          → target_of rt status ≡ t
          → Within p rt l
              (requested (target_of rt status))
              (update_found p rt draw id status courier receipt o)
              s
      go none e = rw e (nothing_done nothing s)
      go (some target) e =
          let outbox = admin_outbox rt draw o target courier receipt (admin_event_of target) in
          rw e (
            pure-Within (Follows (move_to target)) (Follows-IsPreorder (move_to target)) p l
              (update_order_status_with_outbox p id target none (shipping_of courier receipt)
                outbox)
              (response_of rt) s
              (update-Within p rt l (move_to target) id target none (shipping_of courier receipt)
                outbox s λ r here. inr refl))

  pub admin-Within :
      (draw : Draw) (id status courier receipt : String) (s : p.State)
      → Within p rt l
          (requested (target_of rt status))
          (admin_update_status p rt draw id status courier receipt)
          s
  unfolding admin_update_status
  admin-Within draw id status courier receipt s =
      with_order-Within (Follows (requested (target_of rt status)))
        (Follows-IsPreorder (requested (target_of rt status))) p l id
        (update_found p rt draw id status courier receipt) s
        λ o s' row. admin_found-Within draw id status courier receipt o s'

  pub pay_found-Within :
      (draw : Draw) (short_id : String) (now : Time) (id : String) (o : OrderModel) (s : p.State)
      → Within p rt l (move_to paid) (pay_found p rt draw short_id now id o) s
  unfolding pay_found
  pay_found-Within draw short_id now id o s =
      let outbox = some (paid_outbox rt draw short_id now o) in
      pure-Within (Follows (move_to paid)) (Follows-IsPreorder (move_to paid)) p l
        (update_order_status_with_outbox p id paid (some (simulated_meta short_id now)) none outbox)
        (response_of rt) s
        (update-Within p rt l (move_to paid) id paid (some (simulated_meta short_id now)) none
          outbox s λ r here. inr refl)

  pub success-Within :
      (draw : Draw) (short_id : String) (now : Time) (id : String) (s : p.State)
      → Within p rt l (move_to paid) (simulate_payment_success p rt draw short_id now id) s
  unfolding simulate_payment_success
  success-Within draw short_id now id s =
      with_order-Within (Follows (move_to paid)) (Follows-IsPreorder (move_to paid)) p l id
        (pay_found p rt draw short_id now id) s
        λ o s' row. pay_found-Within draw short_id now id o s'

  pub expire_found-Within :
      (draw : Draw) (id : String) (o : OrderModel) (s : p.State)
      → Within p rt l (move_to expired) (expire_found p rt draw id o) s
  unfolding expire_found
  expire_found-Within draw id o s =
      let outbox = some (expired_outbox rt draw o) in
      pure-Within (Follows (move_to expired)) (Follows-IsPreorder (move_to expired)) p l
        (update_order_status_with_outbox p id expired none none outbox) (response_of rt) s
        (update-Within p rt l (move_to expired) id expired none none outbox s λ r here. inr refl)

  pub expire-Within :
      (draw : Draw) (id : String) (s : p.State)
      → Within p rt l (move_to expired) (simulate_order_expire p rt draw id) s
  unfolding simulate_order_expire
  expire-Within draw id s =
      with_order-Within (Follows (move_to expired)) (Follows-IsPreorder (move_to expired)) p l id
        (expire_found p rt draw id) s λ o s' row. expire_found-Within draw id o s'
