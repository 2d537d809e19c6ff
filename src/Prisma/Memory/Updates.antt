-- ===== src/Prisma/Memory/Updates.antt =====
-- An update of an event that the database in memory has does not fail.
use store_order.Base.{
  String, ◌≡◌, refl, List, [], ◌∷◌, ok, Memᴰ, Bool-cases, inl, inr, arith, eq_iff, ◌==◌,
}
use store_order.Schema.{OutboxEventModel, OutboxSet, apply_event_sets}
use store_order.Prisma.Memory.{Memory, event_with, update_event_found, update_outbox_event}

Memᴰ-event_with :
    (id : String) (es : List OutboxEventModel) {e : OutboxEventModel}
    → Memᴰ e es
    → e.id ≡ id
    → (f : OutboxEventModel) × (event_with id es ≡ ok f)
unfolding event_with
Memᴰ-event_with id [] m same = elim m [ ]
Memᴰ-event_with id (x ∷ es) {e} (Memᴰ.head here) same =
    (x, ground (arith, eq_iff x.id id, here, same))
Memᴰ-event_with id (x ∷ es) {e} (Memᴰ.tail m) same = elim (Bool-cases (x.id == id)) [
  | inl hit ↦ (x, rw hit refl)
  | inr miss ↦ let (f, found) = Memᴰ-event_with id es {e = e} m same in (f, rw miss found)
]

pub update_outbox_event-ok :
    (id : String) (sets : List OutboxSet) (m : Memory) {e : OutboxEventModel}
    → Memᴰ e m.events
    → e.id ≡ id
    → (f : OutboxEventModel) × ((update_outbox_event id sets m).0 ≡ ok f)
unfolding update_outbox_event update_event_found
update_outbox_event-ok id sets m {e} here same =
    let (f, found) = Memᴰ-event_with id m.events {e = e} here same in
    (apply_event_sets sets f, rw found refl)
