-- ===== src/Service/Users/Announcements.antt =====
-- The cancellation events of HandleUserDeleted and HandleUserBanned of
-- internal/service/order_service.go: which orders they are about, and what they say.
use store_order.Base.{
  is_empty-prefixed, lookup, lookup-put, false, String, ℕ, suc, ◌≡◌, refl, subst, List, [], ◌∷◌,
  select, is_empty, Bool, ok, ok_inj, Result-cases, Bool-cases, inl, inr, trim_space, arith, some,
}
use store_order.Schema.{OrderModel, pending_payment, same_status}
use store_order.Runtime.{Runtime, Draw, scalar, text}
use store_order.Repository.{OutboxCreateInput}
use store_order.Service.Events.{build_order_event_data, topic_order_events}
use store_order.Service.Users.{cleanup_envelope, cancellation_events, ban_reason}

abbrev pub is_unpaid : OrderModel → Bool
is_unpaid o = same_status o.status pending_payment

-- The events announce the cancellation of these orders, in their order: each carries the envelope
-- that was marshalled for its order, whatever it drew from its surroundings, and this has the type
-- order.cancelled and the reason.
abbrev pub Announce : Runtime → String → List OrderModel → List OutboxCreateInput → Type 0
Announce rt reason [] [] = Unit
Announce rt reason (o ∷ os) (e ∷ es) =
    ((e.aggregate_type ≡ "ORDER")
      × (e.aggregate_id ≡ o.id)
      × (e.topic ≡ "order.events")
      × ((draw : Draw) × ((cleanup_envelope rt draw reason o).event_type ≡ "order.cancelled")
          × (lookup "reason" (cleanup_envelope rt draw reason o).payload
              ≡ some (scalar (text reason)))
          × (rt.marshal (cleanup_envelope rt draw reason o) ≡ ok e.payload)))
    × Announce rt reason os es
Announce rt reason _ _ = ⊥

-- the reason of a cancellation is in its event
tells_reason :
    (rt : Runtime) (o : OrderModel) (reason : String)
    → is_empty reason ≡ false
    → lookup "reason" (build_order_event_data rt o reason) ≡ some (scalar (text reason))
unfolding build_order_event_data
tells_reason rt o reason given = rw given (lookup-put "reason" "reason" (scalar (text reason)) _)

pub given_ban_reason : (reason : String) → is_empty (ban_reason reason) ≡ false
given_ban_reason reason = elim (Bool-cases (is_empty (trim_space reason))) [
  | inl blank ↦ rw blank refl
  | inr said ↦ rw said (is_empty-prefixed "User account banned: " (trim_space reason) refl)
]

pub cancellation_events-Announce :
    (rt : Runtime) (draws : ℕ → Draw) (failure reason : String) (os : List OrderModel)
    {es : List OutboxCreateInput}
    → is_empty reason ≡ false
    → cancellation_events rt draws failure reason os ≡ ok es
    → Announce rt reason (select is_unpaid os) es
unfolding cancellation_events
cancellation_events-Announce rt draws failure reason [] {es} given h =
    subst (Announce rt reason []) (ok_inj h) tt
cancellation_events-Announce rt draws failure reason (o ∷ os) {es} given h =
    elim (Bool-cases (is_unpaid o)) [
      | inr paid ↦
          rw paid (cancellation_events-Announce rt draws failure reason os given (ground arith))
      | inl unpaid ↦ elim (Result-cases (rt.marshal (cleanup_envelope rt (draws 0) reason o))) [
        | inr (e, failed) ↦ absurd (ground arith)
        | inl (payload, marshalled) ↦
            elim (Result-cases (cancellation_events rt (λ i. draws (suc i)) failure reason os)) [
              | inr (e, failed) ↦ absurd (ground arith)
              | inl (rest, found) ↦
                  let entry : OutboxCreateInput = record {
                    aggregate_type = "ORDER";
                    aggregate_id = o.id;
                    topic = topic_order_events;
                    payload = payload;
                  } in
                  let same : entry ∷ rest ≡ es = ground arith in
                  rw unpaid (
                    subst (Announce rt reason (o ∷ select is_unpaid os)) same (
                      (
                        refl,
                        refl,
                        refl,
                        (draws 0, refl, tells_reason rt _ reason given, marshalled),
                      ),
                      cancellation_events-Announce rt _ failure reason os given found,
                    ))
            ]
      ]
    ]
