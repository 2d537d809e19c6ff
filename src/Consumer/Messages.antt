-- ===== src/Consumer/Messages.antt =====
-- Which events the consumer of internal/consumer/user_event_consumer.go acts on.
use Prim.Native.String.{[], ◌∷◌}
use store_order.Base.{
  refl, true, trim_space, String, ◌≡◌, ◌≢◌, ◌⊎◌, inl, inr, sym, ◌∙◌, ap, subst, none, some, ok,
  false, not, ◌&&◌, is_empty, eq_iff, if◌then◌else◌, Bool-cases, Result-cases, arith,
}
use store_order.Runtime.{Runtime, lower_text}
use store_order.Consumer.{
  UserEventEnvelope, UserEventData, Decoder, event_type_of, first_text, is_supported, event_data,
  event_of_envelope, extract_user_lifecycle_event,
}

-- What an accepted event is: of one of two types, and of a user who is named.
abbrev pub IsLifecycleEvent : UserEventData → Type 0
IsLifecycleEvent event =
    ((event.event_type ≡ "user.deleted") ⊎ (event.event_type ≡ "user.banned"))
    × (is_empty event.user_id ≡ false)

event_data-ok :
    (d : Decoder) (env : UserEventEnvelope) (t : String) {event : UserEventData}
    → event_data d env t ≡ ok (some event)
    → (event.event_type ≡ first_text t "user.deleted") × (is_empty event.user_id ≡ false)
event_data-ok d env t h = ground arith

supported_cases :
    (t : String)
    → (not (is_supported t) && not (is_empty t)) ≡ false
    → (first_text t "user.deleted" ≡ "user.deleted") ⊎ (first_text t "user.deleted" ≡ "user.banned")
supported_cases t h = ground (arith, eq_iff t "user.deleted", eq_iff t "user.banned")

-- `t` is the first of three texts that is not empty, or user.deleted.
abbrev pub IsFirstOf : String → String → String → String → Type 0
IsFirstOf a b c t =
    ((a ≢ "") × (t ≡ a))
    ⊎ (((a ≡ "") × (b ≢ "") × (t ≡ b))
        ⊎ (((a ≡ "") × (b ≡ "") × (c ≢ "") × (t ≡ c))
            ⊎ ((a ≡ "") × (b ≡ "") × (c ≡ "") × (t ≡ "user.deleted"))))

-- What the type of an event comes from: the first of the three fields "event_type", "event" and "type"
-- that is not blank, without the spaces around it and in small letters, and user.deleted where all
-- three are blank.
abbrev pub IsTyped : Runtime → UserEventEnvelope → String → Type 0
IsTyped rt env t =
    IsFirstOf (lower_text rt (trim_space env.event_type)) (lower_text rt (trim_space env.event))
      (lower_text rt (trim_space env.type_name)) t

not_empty : (s : String) → is_empty s ≡ false → s ≢ ""
not_empty s e h = let wrong : false ≡ true = sym e ∙ ap is_empty h in cc

first_text-IsFirstOf :
    (a b c : String) → IsFirstOf a b c (first_text (first_text a (first_text b c)) "user.deleted")
first_text-IsFirstOf [] [] [] = inr (inr (inr (refl, refl, refl, refl)))
first_text-IsFirstOf [] [] (x ∷ c) = inr (inr (inl (refl, refl, not_empty (x ∷ c) refl, refl)))
first_text-IsFirstOf [] (x ∷ b) c = inr (inl (refl, not_empty (x ∷ b) refl, refl))
first_text-IsFirstOf (x ∷ a) b c = inl (not_empty (x ∷ a) refl, refl)

module _ (rt : Runtime) (d : Decoder) (payload : String) where
  -- An event that is extracted from a message is user.deleted or user.banned, and names a user. Its
  -- type is the first of the fields event_type, event and type of the message that is not blank, in
  -- small letters and without the spaces around it; a message without a type counts as user.deleted.
  pub extract-IsLifecycleEvent :
      {event : UserEventData}
      → extract_user_lifecycle_event rt d payload ≡ ok (some event)
      → IsLifecycleEvent event
        × ((env : UserEventEnvelope) × (d.envelope payload ≡ ok env)
            × IsTyped rt env event.event_type)
  unfolding extract_user_lifecycle_event
  extract-IsLifecycleEvent {event} h = elim (Result-cases (d.envelope payload)) [
    | inr (e, bad) ↦ absurd (ground arith)
    | inl (env, read) ↦
        let t = event_type_of rt env in
        let accepted : event_of_envelope rt d env ≡ ok (some event) = ground arith in
        elim (Bool-cases (not (is_supported t) && not (is_empty t))) [
          | inl ignored ↦ absurd (ground arith)
          | inr kept ↦
              let (of_type, named) =
                event_data-ok d env t {event = event}
                  (sym (ap (λ b. if b then ok none else event_data d env t) kept) ∙ accepted) in
              (
                (
                  subst (λ x. (x ≡ "user.deleted") ⊎ (x ≡ "user.banned")) (sym of_type)
                      (supported_cases t kept),
                  named,
                ),
                (
                  env,
                  read,
                  subst (IsTyped rt env) (sym of_type) (
                      first_text-IsFirstOf (lower_text rt (trim_space env.event_type))
                        (lower_text rt (trim_space env.event))
                        (lower_text rt (trim_space env.type_name))),
                ),
              )
        ]
  ]
