-- ===== src/Midtrans/Signatures.antt =====
-- What internal/integration/midtrans/signature.go accepts as signed, and which notifications it takes
-- for payments.
use store_order.Base.{
  String, ◌≡◌, refl, ◌↔◌, ◌⊎◌, inl, inr, true, is_empty, eq_iff, arith, trim_space, ◌<>◌,
}
use store_order.Schema.{
  OrderStatus, pending_payment, paid, processing, shipped, completed, cancelled, expired,
}
use store_order.Runtime.{Runtime, lower_text}
use store_order.Midtrans.{
  WebhookNotification, generate_signature, verify_signature, status_of, determine_order_status,
}

-- a text is blank
abbrev pub IsBlank : String → Type 0
IsBlank s = is_empty (trim_space s) ≡ true

module _ (rt : Runtime) (key : String) (notif : WebhookNotification) where
  -- the digest that Midtrans documents for a notification, under the server's key
  abbrev pub digest : String
  digest = rt.sha512_hex (notif.order_id <> notif.status_code <> notif.gross_amount <> key)

  -- A signature verifies exactly when the server has a key, the notification carries a signature, and
  -- that is, up to letter case, the digest of the order number, the status code, the amount and the
  -- key.
  pub verify_signature_iff : (verify_signature rt key notif ≡ true) ↔ (
      ¬ IsBlank key
      × (¬ IsBlank notif.signature_key)
      × (lower_text rt digest ≡ lower_text rt notif.signature_key))
  unfolding verify_signature generate_signature
  verify_signature_iff =
      let same = eq_iff (lower_text rt digest) (lower_text rt notif.signature_key) in
      (
        λ h. (ground (arith, same), ground (arith, same), ground (arith, same)),
        λ h. ground (arith, same),
      )

-- What a transaction status, with a fraud status, reports of the payment of an order.
abbrev pub Reports : String → String → OrderStatus → Type 0
Reports t f paid = (t ≡ "settlement") ⊎ ((t ≡ "capture") × ((f ≡ "accept") ⊎ (f ≡ "")))
Reports t f pending_payment = (t ≡ "pending") ⊎ ((t ≡ "capture") × (f ≡ "challenge"))
Reports t f cancelled = (t ≡ "deny") ⊎ (t ≡ "cancel")
Reports t f expired = t ≡ "expire"
Reports t f _ = ⊥

is_empty_sound : (s : String) → is_empty s ≡ true → s ≡ ""
is_empty_sound String.[] h = refl
is_empty_sound (String.◌∷◌ c s) h = cc

status_of-Reports : (t f : String) (st : OrderStatus) → status_of t f ≡ (st, true) → Reports t f st
unfolding status_of
status_of-Reports t f paid h =
    ground (arith, eq_iff t "capture", eq_iff t "settlement", eq_iff f "accept", is_empty_sound f)
status_of-Reports t f pending_payment h =
    ground (arith, eq_iff t "capture", eq_iff t "pending", eq_iff f "challenge")
status_of-Reports t f cancelled h = ground (arith, eq_iff t "deny", eq_iff t "cancel")
status_of-Reports t f expired h = ground (arith, eq_iff t "expire")
status_of-Reports t f _ h = ground arith

Reports-status_of : (t f : String) (st : OrderStatus) → Reports t f st → status_of t f ≡ (st, true)
unfolding status_of
Reports-status_of t f paid (inl e) = rw e refl
Reports-status_of t f paid (inr (e, inl g)) = rw (e, g) refl
Reports-status_of t f paid (inr (e, inr g)) = rw (e, g) refl
Reports-status_of t f pending_payment (inl e) = rw e refl
Reports-status_of t f pending_payment (inr (e, g)) = rw (e, g) refl
Reports-status_of t f cancelled (inl e) = rw e refl
Reports-status_of t f cancelled (inr e) = rw e refl
Reports-status_of t f expired e = rw e refl
Reports-status_of t f processing h = elim h [ ]
Reports-status_of t f shipped h = elim h [ ]
Reports-status_of t f completed h = elim h [ ]

-- A notification is taken to report a status exactly when Reports says so of its transaction and fraud
-- statuses, with the spaces around them off and their letters in lower case; so an order is made paid
-- by a settlement, or a capture that is accepted or carries no fraud status, and by nothing else.
pub determine_order_status_iff :
    (rt : Runtime) (notif : WebhookNotification) (st : OrderStatus)
    → (determine_order_status rt notif ≡ (st, true))
      ↔ Reports
          (lower_text rt (trim_space notif.transaction_status))
          (lower_text rt (trim_space notif.fraud_status))
          st
unfolding determine_order_status
determine_order_status_iff rt notif st = (status_of-Reports _ _ st, Reports-status_of _ _ st)
