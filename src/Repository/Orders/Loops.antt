-- ===== src/Repository/Orders/Loops.antt =====
-- The loops of the two clean-up methods of order_repository.go: an update of every order that was
-- read, and an event for every outbox entry.
use mathlib.Core.List.{append_assoc}
use text.Mathlib.TextPositions.{eq_refl}
use store_order.Base.{
  String, ◌≡◌, refl, sym, ◌∙◌, ap, subst, some, List, [], ◌∷◌, ◌⊎◌, inl, inr, ◌≢◌, ok, continue-ok,
  wrapped-ok, arith, Memᴰ, ◌==◌, eq_iff, Bool-cases,
}
use store_order.Schema.{Time, OrderStatus, OrderModel, OrderSet}
use store_order.Prisma.{Prisma, NewOutboxEvent}
use store_order.Prisma.Tables.{Tables, PrismaLaws, change_order, stamped, add_events}
use store_order.Repository.{OutboxCreateInput}
use store_order.Repository.Orders.{new_event, default_type, update_each, insert_events}
use store_order.Repository.Orders.Update.{Appended, add_events-nil}

-- the event that each entry of a clean-up asks for
abbrev pub asked_each : List OutboxCreateInput → List NewOutboxEvent
asked_each [] = []
asked_each (outbox ∷ rest) = new_event outbox.aggregate_id (default_type outbox) ∷ asked_each rest

-- Assigning the columns of a row a second time changes its time stamp alone.
abbrev pub Repeats : (OrderStatus → List OrderSet) → Type 0
Repeats sets =
    (st : OrderStatus) (before now : Time) (o : OrderModel)
    → stamped (sets st) now (stamped (sets st) before o) ≡ stamped (sets st) now o

-- The row `j` of `old` has been assigned its columns in `t`.
abbrev pub Assigned : (OrderStatus → List OrderSet) → Tables → Tables → String → Type 0
Assigned sets old t j =
    (o : OrderModel) × (now : Time) × (old.order j ≡ some o)
    × (t.order j ≡ some (stamped (sets o.status) now o))

-- An order that was read from `old`, with its status.
abbrev pub IsReadFrom : Tables → OrderModel → Type 0
IsReadFrom old o = (r : OrderModel) × (old.order o.id ≡ some r) × (o.status ≡ r.status)

pub some_inj : {A : Type 0} {a b : A} → some a ≡ some b → a ≡ b
some_inj h = cc

module _ (sets : OrderStatus → List OrderSet) (repeats : Repeats sets) (old t : Tables)
    (o : OrderModel) (now : Time) where
  change_order-Assigned :
      (j : String)
      → IsReadFrom old o
      → Assigned sets old t j
      → Assigned sets old (change_order o.id (stamped (sets o.status) now) t) j
  change_order-Assigned j (r, here, same) (r', before, there, assigned) =
      let same_row : o.id ≡ j → r ≡ r' = λ k. some_inj (sym here ∙ ap old.order k ∙ there) in
      elim (Bool-cases (o.id == j)) [
        | inl e ↦ (
          r',
          now,
          there,
          rw (e, assigned)
              (ap (λ st. some (stamped (sets st) now (stamped (sets r'.status) before r')))
                  (same ∙ ap (λ (x : OrderModel). x.status) (same_row ((eq_iff o.id j).0 e)))
                ∙ ap some (repeats r'.status before now r')),
        )
        | inr e ↦ (r', before, there, rw e assigned)
      ]

  change_order-Assigned_self :
      IsReadFrom old o
      → (t.order o.id ≡ old.order o.id) ⊎ Assigned sets old t o.id
      → Assigned sets old (change_order o.id (stamped (sets o.status) now) t) o.id
  change_order-Assigned_self (r, here, same) (inl fresh) = (
    r,
    now,
    here,
    rw (eq_refl o.id, fresh, here) (ap (λ st. some (stamped (sets st) now r)) same),
  )
  change_order-Assigned_self read (inr done) = change_order-Assigned o.id read done

  order-change_order_ne :
      (j : String)
      → o.id ≢ j
      → (change_order o.id (stamped (sets o.status) now) t).order j ≡ t.order j
  order-change_order_ne j h = ground (arith, eq_iff o.id j)

-- Where the first loop stands: each row is as it was, or has been assigned its columns.
abbrev Progress : (OrderStatus → List OrderSet) → Tables → Tables → Type 0
Progress sets old t = (j : String) → (t.order j ≡ old.order j) ⊎ Assigned sets old t j

-- What the loop over `os` does to the tables `t`: the orders of the list are assigned, those that
-- were assigned stay so, the other rows and the outbox are as they were.
pub record IsAssigned (sets : OrderStatus → List OrderSet) (old t t' : Tables)
    (os : List OrderModel) : Type 0 where
  pub keeps : (j : String) → Assigned sets old t j → Assigned sets old t' j
  pub listed : (o : OrderModel) → Memᴰ o os → Assigned sets old t' o.id
  pub unlisted : (j : String) → ((o : OrderModel) → Memᴰ o os → o.id ≢ j) → t'.order j ≡ t.order j
  pub events : t'.events ≡ t.events

module _ (sets : OrderStatus → List OrderSet) (repeats : Repeats sets) (old t : Tables)
    (o : OrderModel) (now : Time) (read : IsReadFrom old o) (progress : Progress sets old t) where
  -- one round of the loop
  change_order-Progress : Progress sets old (change_order o.id (stamped (sets o.status) now) t)
  change_order-Progress j = elim (Bool-cases (o.id == j)) [
    | inl e ↦
        let k = (eq_iff o.id j).0 e in
        inr (
          subst (λ i. Assigned sets old (change_order o.id (stamped (sets o.status) now) t) i) k
            (change_order-Assigned_self sets repeats old t o now read (progress o.id)))
    | inr e ↦ elim (progress j) [
      | inl fresh ↦ inl (rw e fresh)
      | inr done ↦ inr (change_order-Assigned sets repeats old t o now j read done)
    ]
  ]

  Assigned-cons :
      {t' : Tables} {os : List OrderModel}
      → IsAssigned sets old (change_order o.id (stamped (sets o.status) now) t) t' os
      → (x : OrderModel) → Memᴰ x (o ∷ os)
      → Assigned sets old t' x.id
  Assigned-cons {t'} rest x (Memᴰ.head e) =
      subst (λ y. Assigned sets old t' y.id) (sym e)
        (rest.keeps o.id (change_order-Assigned_self sets repeats old t o now read (progress o.id)))
  Assigned-cons rest x (Memᴰ.tail m) = rest.listed x m

  IsAssigned-cons :
      {t' : Tables} (os : List OrderModel)
      → IsAssigned sets old (change_order o.id (stamped (sets o.status) now) t) t' os
      → IsAssigned sets old t t' (o ∷ os)
  IsAssigned-cons os rest = record {
    keeps = λ j done. rest.keeps j (change_order-Assigned sets repeats old t o now j read done);
    listed = Assigned-cons rest;
    unlisted = λ j other.
        rest.unlisted j (λ x m. other x (Memᴰ.tail m))
        ∙ order-change_order_ne sets repeats old t o now j (other o (Memᴰ.head refl));
    events = rest.events;
  }

module _ (p : Prisma) (l : PrismaLaws p) where
  open l use {tables}

  module _ (failure : OrderModel → String) (sets : OrderStatus → List OrderSet)
      (repeats : Repeats sets) (old : Tables) where
    pub update_each-IsAssigned :
        (os : List OrderModel) (s : p.State)
        → Progress sets old (tables s)
        → ((o : OrderModel) → Memᴰ o os → IsReadFrom old o)
        → (update_each p failure sets os s).0 ≡ ok tt
        → IsAssigned sets old (tables s) (tables (update_each p failure sets os s).1) os
    unfolding update_each
    update_each-IsAssigned [] s progress reads h = record {
      keeps = λ j done. done;
      listed = λ o m. elim m [ ];
      unlisted = λ j other. refl;
      events = refl;
    }
    update_each-IsAssigned (o ∷ os) s progress reads h =
        let (m, updated, h, same) = continue-ok _ _ _ h in
        let (now, effect) = l.update_order_done o.id _ s m (wrapped-ok _ _ updated) in
        let s' = (p.update_order o.id (sets o.status) s).1 in
        let next =
          change_order-Progress sets repeats old (tables s) o now (reads o (Memᴰ.head refl))
            progress in
        let rest =
          update_each-IsAssigned os s' (subst (Progress sets old) (sym effect) next)
            (λ x mem. reads x (Memᴰ.tail mem)) h in
        subst (λ t. IsAssigned sets old (tables s) t (o ∷ os)) (sym (ap tables same))
          (IsAssigned-cons sets repeats old (tables s) o now (reads o (Memᴰ.head refl)) progress os
            (subst (λ t. IsAssigned sets old t (tables (update_each p failure sets os s').1) os)
              effect rest))

  pub insert_events-Appended :
      (events : List OutboxCreateInput) (s : p.State)
      → (insert_events p events s).0 ≡ ok tt
      → Appended (asked_each events) (tables s) (tables (insert_events p events s).1)
  unfolding insert_events
  insert_events-Appended [] s h = ([], tt, add_events-nil (tables s))
  insert_events-Appended (outbox ∷ rest) s h =
      let (e, made, h, same) = continue-ok _ _ _ h in
      let (from, effect) = l.create_outbox_event_done _ s e (wrapped-ok _ _ made) in
      let (es, froms, appended) = insert_events-Appended rest _ h in
      (
        e ∷ es,
        (from, froms),
        ap tables same
            ∙ appended
            ∙ ap (add_events es) effect
            ∙ (λ i. record (tables s) { events = append_assoc (tables s).events (e ∷ []) es i }),
      )
