-- ===== src/Service/Webhook/Notifications.antt =====
-- What ProcessMidtransWebhook of order_service.go does with a payment notification.
use store_order.Base.{
  List, [], ◌∷◌, String, ◌≡◌, ◌≢◌, refl, sym, ◌∙◌, ap, Option, none, some, ◌⊎◌, inl, inr, Bool,
  true, false, not, ◌&&◌, Result, ok, err, continue-ok, pure, Bool-cases, arith, subst,
}
use store_order.Schema.{
  Time, OrderStatus, pending_payment, paid, processing, shipped, completed, cancelled, expired,
  OrderModel, OutboxEventModel, same_status, same_status_sound, same_status-differs,
}
use store_order.Runtime.{Runtime, Draw}
use store_order.Prisma.{Prisma, by_order_number}
use store_order.Prisma.Tables.{PrismaLaws, Tables, change_order, add_events, AreCreatedFrom}
use store_order.Midtrans.{WebhookNotification, verify_signature, determine_order_status}
use store_order.Repository.Orders.{get_order_by_order_number}
use store_order.Repository.Orders.Update.{asked, update-done}
use store_order.Repository.Orders.Columns.{moved}
use store_order.Service.Events.Telling.{AreTold, asked-AreTold, untold}
use store_order.Service.Webhook.{
  event_of, payment_meta, webhook_outbox, or_unknown_number, apply_notification, settle,
  accept_webhook, process_midtrans_webhook,
}

or_unknown_number-ok :
    {S : Type 0} (number : String) (r : Result (Option OrderModel)) (s : S) {o : OrderModel}
    → (or_unknown_number number r s).0 ≡ ok o
    → (r ≡ ok (some o)) × ((or_unknown_number number r s).1 ≡ s)
or_unknown_number-ok number (ok (some o)) s h = (cc, refl)
or_unknown_number-ok number (ok none) s h = cc
or_unknown_number-ok number (err e) s h = cc

-- The types of the events that a new status of an order is announced by.
abbrev pub announced_as : OrderStatus → List String
announced_as paid = "order.paid" ∷ []
announced_as cancelled = "order.cancelled" ∷ []
announced_as expired = "order.expired" ∷ []
announced_as _ = []

module _ (rt : Runtime) (draw : Draw) (now : Time) (notif : WebhookNotification) (o : OrderModel)
    (es : List OutboxEventModel) where
  webhook_outbox-AreTold :
      (target : OrderStatus)
      → AreCreatedFrom (asked o.id (webhook_outbox rt draw notif target now o (event_of target))) es
      → AreTold rt o.id (announced_as target) es
  webhook_outbox-AreTold paid h = asked-AreTold rt o.id "order.paid" _ o.id es refl refl h
  webhook_outbox-AreTold cancelled h = asked-AreTold rt o.id "order.cancelled" _ o.id es refl refl h
  webhook_outbox-AreTold expired h = asked-AreTold rt o.id "order.expired" _ o.id es refl refl h
  webhook_outbox-AreTold pending_payment h = untold rt o.id es h
  webhook_outbox-AreTold processing h = untold rt o.id es h
  webhook_outbox-AreTold shipped h = untold rt o.id es h
  webhook_outbox-AreTold completed h = untold rt o.id es h

module _ (p : Prisma) (rt : Runtime) (key : String) (dev : Bool) (draw : Draw) (now : Time)
    (notif : WebhookNotification) where
  -- the refusal of a signature that does not verify
  pub webhook_forged :
      (s : p.State)
      → dev ≡ false
      → verify_signature rt key notif ≡ false
      → process_midtrans_webhook p rt key dev draw now notif s
        ≡ (err "invalid midtrans webhook signature", s)
  unfolding process_midtrans_webhook
  webhook_forged s production forged = rw (production, forged, process_midtrans_webhook) refl

  module _ (l : PrismaLaws p) where
    open l use {tables}

    -- the effect of a notification on the order `o`: none, where its state is unknown or the order
    -- is in it already; otherwise the order is in it, and the outbox has its event, if it has one
    abbrev pub Settled : OrderStatus → Bool → OrderModel → Tables → Tables → Type 0
    Settled target known o t t' =
        (((known ≡ false) ⊎ (o.status ≡ target)) × (t' ≡ t))
        ⊎ ((known ≡ true)
            × (o.status ≢ target)
            × ((at : Time) × (es : List OutboxEventModel) × AreTold rt o.id (announced_as target) es
                × (t'
                    ≡ add_events es (
                        change_order o.id
                          (moved target
                            (some (record {
                              payment_type = notif.payment_type;
                              midtrans_transaction_id = notif.transaction_id;
                              paid_at = some now;
                            }))
                            none at)
                          t))))

    -- the last case of these
    abbrev Notified : OrderStatus → OrderModel → Tables → Tables → Type 0
    Notified target o t t' =
        (at : Time) × (es : List OutboxEventModel) × AreTold rt o.id (announced_as target) es
        × (t'
            ≡ add_events es
                (change_order o.id (moved target (some (payment_meta notif now)) none at) t))

    apply_notification-done :
        (target : OrderStatus) (o : OrderModel) (s : p.State)
        → (apply_notification p rt key dev draw now notif target o s).0 ≡ ok tt
        → Notified target o
            (tables s)
            (tables (apply_notification p rt key dev draw now notif target o s).1)
    unfolding apply_notification
    apply_notification-done target o s h =
        let (r, updated, _, same) = continue-ok _ _ _ h in
        let (at, (es, from, effect)) =
          update-done p l o.id target (some (payment_meta notif now)) none _ s updated in
        (at, es, webhook_outbox-AreTold rt draw now notif o es target from, ap tables same ∙ effect)

    settle_same :
        (target : OrderStatus) (o : OrderModel)
        → same_status o.status target ≡ true
        → settle p rt key dev draw now notif (target, true) o ≡ pure tt
    unfolding settle
    settle_same target o same = rw (same) refl

    settle_other :
        (target : OrderStatus) (o : OrderModel)
        → same_status o.status target ≡ false
        → settle p rt key dev draw now notif (target, true) o
          ≡ apply_notification p rt key dev draw now notif target o
    unfolding settle
    settle_other target o other = rw (other) refl

    settle_known :
        (target : OrderStatus) (o : OrderModel) (s : p.State)
        → (settle p rt key dev draw now notif (target, true) o s).0 ≡ ok tt
        → Settled target true o
            (tables s)
            (tables (settle p rt key dev draw now notif (target, true) o s).1)
    settle_known target o s h = elim (Bool-cases (same_status o.status target)) [
      | inl same ↦
          subst (λ f. Settled target true o (tables s) (tables (f s).1))
            (sym (settle_same target o same))
            (inl (inr (same_status_sound o.status target same), refl))
      | inr other ↦
          subst (λ f. Settled target true o (tables s) (tables (f s).1))
            (sym (settle_other target o other))
            (inr (
              refl,
              same_status-differs o.status target other,
              apply_notification-done target o s
                  (subst (λ f. (f s).0 ≡ ok tt) (settle_other target o other) h),
            ))
    ]

    settle-done :
        (target : OrderStatus) (known : Bool) (o : OrderModel) (s : p.State)
        → (settle p rt key dev draw now notif (target, known) o s).0 ≡ ok tt
        → Settled target known o
            (tables s)
            (tables (settle p rt key dev draw now notif (target, known) o s).1)
    unfolding settle
    settle-done target false o s h = inl (inl refl, refl)
    settle-done target true o s h = settle_known target o s h

    accept_webhook-done :
        (s : p.State)
        → (accept_webhook p rt key dev draw now notif s).0 ≡ ok tt
        → (o : OrderModel) × ((tables s).order o.id ≡ some o)
          × (o.order_number ≡ notif.order_id)
          × Settled
              (determine_order_status rt notif).0
              (determine_order_status rt notif).1
              o
              (tables s)
              (tables (accept_webhook p rt key dev draw now notif s).1)
    unfolding accept_webhook get_order_by_order_number
    accept_webhook-done s h =
        let n = notif.order_id in
        let d = determine_order_status rt notif in
        let r = (p.find_order (by_order_number n) s).0 in
        let s' = (p.find_order (by_order_number n) s).1 in
        let (o, found, h', same) =
          continue-ok (or_unknown_number n r s').0 (settle p rt key dev draw now notif d)
            (or_unknown_number n r s').1 h in
        let (read, still) = or_unknown_number-ok n r s' found in
        let (row, number) = l.find_order_by_number n s o read in
        let kept = ap tables still ∙ l.find_order_keeps (by_order_number n) s in
        let settled = settle-done d.0 d.1 o (or_unknown_number n r s').1 h' in
        let after =
          subst (λ t. Settled d.0 d.1 o (tables (or_unknown_number n r s').1) t)
            (sym (ap tables same)) settled in
        (
          o,
          row,
          number,
          subst (λ t. Settled d.0 d.1 o t (tables (accept_webhook p rt key dev draw now notif s).1))
              kept after,
        )

    checked :
        (s : p.State)
        → (process_midtrans_webhook p rt key dev draw now notif s).0 ≡ ok tt
        → (process_midtrans_webhook p rt key dev draw now notif
            ≡ accept_webhook p rt key dev draw now notif)
          × ((dev ≡ true) ⊎ (verify_signature rt key notif ≡ true))
    unfolding process_midtrans_webhook
    checked s h = elim (Bool-cases (not dev && not (verify_signature rt key notif))) [
      | inl forged ↦ absurd (cc)
      | inr genuine ↦ (rw (genuine, process_midtrans_webhook) refl, ground arith)
    ]

    -- A notification that is acknowledged carried a signature that verifies, unless the service runs
    -- in development mode. It names a stored order, and either its state is unknown or the order's
    -- own, and then no table changes, or the order is moved to that state, whatever its status was,
    -- with the payment's type, its transaction and the time of the call as the time of payment; the
    -- outbox has one event more, order.paid, order.cancelled or order.expired, where that is its
    -- state, and none for another; and no other row has changed.
    pub webhook-done :
        (s : p.State)
        → (process_midtrans_webhook p rt key dev draw now notif s).0 ≡ ok tt
        → ((dev ≡ true) ⊎ (verify_signature rt key notif ≡ true))
          × ((o : OrderModel) × ((tables s).order o.id ≡ some o)
              × (o.order_number ≡ notif.order_id)
              × Settled
                  (determine_order_status rt notif).0
                  (determine_order_status rt notif).1
                  o
                  (tables s)
                  (tables (process_midtrans_webhook p rt key dev draw now notif s).1))
    webhook-done s h =
        let (accepts, genuine) = checked s h in
        (
          genuine,
          subst
              (λ f.
                (o : OrderModel) × ((tables s).order o.id ≡ some o)
                × (o.order_number ≡ notif.order_id)
                × Settled (determine_order_status rt notif).0 (determine_order_status rt notif).1 o
                    (tables s) (tables (f s).1))
              (sym accepts) (accept_webhook-done s (subst (λ f. (f s).0 ≡ ok tt) accepts h)),
        )
