-- ===== src/Repository/Orders/Cleanup.antt =====
-- What AnonymizeUserOrdersAndCancelUnpaid and CancelUnpaidUserOrders of order_repository.go have done
-- to the orders of the user, to those of others, and to the outbox, when they return no error.
use store_order.Base.{
  String, ◌≡◌, refl, sym, ◌∙◌, ap, subst, some, List, ◌↔◌, ok, continue-ok, wrapped-ok, arith, Memᴰ,
  eq_iff, if◌then◌else◌, inl, Bool, true, ◌==◌, ◌++◌, false,
}
use store_order.Schema.{
  Time, OrderStatus, pending_payment, cancelled, OrderModel, OrderSet, OutboxEventModel,
  same_status, status_text,
}
use store_order.Prisma.{Prisma, OrderWhere, NewOutboxEvent}
use store_order.Prisma.Tables.{Tables, PrismaLaws, stamped, fetched, matches, AreCreatedFrom}
use store_order.Repository.{OutboxCreateInput}
use store_order.Repository.Orders.{
  anonymize_params, cancel_params, all_where, anonymize_orders, cancel_orders, insert_events,
  update_each, anonymize_user_orders_and_cancel_unpaid, cancel_unpaid_user_orders,
}
use store_order.Repository.Orders.Loops.{
  asked_each, some_inj, Repeats, IsReadFrom, IsAssigned, update_each-IsAssigned,
  insert_events-Appended,
}

-- An order whose owner was deleted: no personal data, no payment link, and no longer unpaid. Its
-- numbers, amounts, line items and payment references are those it had.
abbrev pub anonymized : String → Time → OrderModel → OrderModel
anonymized email now o = record o {
  user_email = email;
  shipping_address = some "[ANONYMIZED]";
  snap_token = some "";
  snap_redirect_url = some "";
  status = if same_status o.status pending_payment then cancelled else o.status;
  updated_at = now;
}

-- An unpaid order whose owner was banned.
abbrev pub banned : Time → OrderModel → OrderModel
banned now o = record o {
  status = cancelled;
  snap_token = some "";
  snap_redirect_url = some "";
  updated_at = now;
}

anonymize_params-Repeats : (email : String) → Repeats (anonymize_params email)
anonymize_params-Repeats email pending_payment before now o = refl
anonymize_params-Repeats email _ before now o = refl

stamped-anonymize_params :
    (email : String) (st : OrderStatus) (now : Time) (o : OrderModel)
    → o.status ≡ st
    → stamped (anonymize_params email st) now o ≡ anonymized email now o
stamped-anonymize_params email st now o h = ground arith

banned-Repeats : Repeats (λ _. cancel_params)
banned-Repeats st before now o = refl

pub status_text-eq_pending :
    (st : OrderStatus) → (status_text st == "PENDING_PAYMENT") ≡ same_status st pending_payment
status_text-eq_pending pending_payment = refl
status_text-eq_pending _ = refl

pub id-fetched : (b : Bool) (o : OrderModel) → (fetched b o).id ≡ o.id
id-fetched true o = refl
id-fetched _ o = refl

pub status-fetched : (b : Bool) (o : OrderModel) → (fetched b o).status ≡ o.status
status-fetched true o = refl
status-fetched _ o = refl

-- What became of the rows and the outbox: the chosen rows are changed, the others and the absent ones
-- are as they were, and the events that were asked for are the newest.
pub record IsCleanedUp (IsChosen : OrderModel → Type 0) (change : Time → OrderModel → OrderModel)
    (asked : List NewOutboxEvent) (t t' : Tables) : Type 0 where
  pub changed :
      (j : String) (o : OrderModel)
      → t.order j ≡ some o
      → IsChosen o
      → (now : Time) × (t'.order j ≡ some (change now o))
  pub kept :
      (j : String) → ((o : OrderModel) → t.order j ≡ some o → ¬ IsChosen o) → t'.order j ≡ t.order j
  pub stored : List OutboxEventModel
  pub from_asked : AreCreatedFrom asked stored
  pub appended : t'.events ≡ t.events ++ stored

-- a clean-up stated of other words for the same rows and changes
IsCleanedUp-map :
    (P Q : OrderModel → Type 0) (f g : Time → OrderModel → OrderModel) (asked : List NewOutboxEvent)
    (t t' : Tables)
    → ((o : OrderModel) → P o ↔ Q o)
    → ((now : Time) (o : OrderModel) → Q o → f now o ≡ g now o)
    → IsCleanedUp P f asked t t'
    → IsCleanedUp Q g asked t t'
IsCleanedUp-map P Q f g asked t t' same same' c = record {
  changed = λ j o row q.
      let (now, changed) = c.changed j o row ((same o).1 q) in
      (now, changed ∙ ap some (same' now o q));
  kept = λ j other. c.kept j (λ o row pr. other o row ((same o).0 pr));
  stored = c.stored;
  from_asked = c.from_asked;
  appended = c.appended;
}

module _ (p : Prisma) (l : PrismaLaws p) where
  open l use {tables}

  module _ (filters : List OrderWhere) (s : p.State) (os : List OrderModel)
      (found : (p.find_orders (all_where filters) s).0 ≡ ok os) where
    find_orders-IsReadFrom :
        (o : OrderModel)
        → Memᴰ o os
        → (r : OrderModel) × ((tables s).order o.id ≡ some r)
          × (o.status ≡ r.status)
          × (matches filters r ≡ true)
    find_orders-IsReadFrom o m =
        let (r, row, match, same) = l.find_orders_sound (all_where filters) s os o found m in
        let same_id = ap (λ (x : OrderModel). x.id) same ∙ id-fetched false r in
        (
          r,
          subst (λ i. (tables s).order i ≡ some r) (sym same_id) row,
          ap (λ (x : OrderModel). x.status) same ∙ status-fetched false r,
          match,
        )

    module _ (sets : OrderStatus → List OrderSet) (t' : Tables)
        (assigned : IsAssigned sets (tables s) (tables s) t' os) where
      matched_changed :
          (j : String) (o : OrderModel)
          → (tables s).order j ≡ some o
          → matches filters o ≡ true
          → (now : Time) × (t'.order j ≡ some (stamped (sets o.status) now o))
      matched_changed j o row match =
          let at_id = subst (λ i. (tables s).order i ≡ some o) (sym (l.row_id s j o row)) row in
          let m = l.find_orders_complete (all_where filters) s os o found refl at_id match in
          let (o', now, old_row, new_row) = assigned.listed (fetched false o) m in
          (
            now,
            subst (λ i. t'.order i ≡ some (stamped (sets o.status) now o)) (l.row_id s j o row)
                (new_row
                  ∙ ap (λ (x : OrderModel). some (stamped (sets x.status) now x))
                      (some_inj (sym old_row ∙ at_id))),
          )

      unmatched_kept :
          (j : String)
          → ((o : OrderModel) → (tables s).order j ≡ some o → ¬ (matches filters o ≡ true))
          → t'.order j ≡ (tables s).order j
      unmatched_kept j other = assigned.unlisted j λ x m same.
          let (r, row, status, match) = find_orders-IsReadFrom x m in
          other r (subst (λ i. (tables s).order i ≡ some r) same row) match

  -- the two loops of a clean-up after its query
  clean_up :
      (filters : List OrderWhere) (sets : OrderStatus → List OrderSet)
      → Repeats sets
      → (failure : OrderModel → String) (events : List OutboxCreateInput) (os : List OrderModel)
        (s : p.State)
      → (p.find_orders (all_where filters) s).0 ≡ ok os
      → let s1 = (p.find_orders (all_where filters) s).1 in
        let s2 = (update_each p failure sets os s1).1 in
        (update_each p failure sets os s1).0 ≡ ok tt
        → (insert_events p events s2).0 ≡ ok tt
        → IsCleanedUp
            (λ o. matches filters o ≡ true)
            (λ now o. stamped (sets o.status) now o)
            (asked_each events)
            (tables s)
            (tables (insert_events p events s2).1)
  clean_up filters sets repeats failure events os s found looped inserted =
      let s1 = (p.find_orders (all_where filters) s).1 in
      let s2 = (update_each p failure sets os s1).1 in
      let same = l.find_orders_keeps (all_where filters) s in
      let reads : (o : OrderModel) → Memᴰ o os → IsReadFrom (tables s) o = λ o m.
        let (r, row, status, _) = find_orders-IsReadFrom filters s os found o m in
        (r, row, status) in
      let assigned =
        subst (λ t. IsAssigned sets (tables s) t (tables s2) os) same
          (update_each-IsAssigned p l failure sets repeats (tables s) os s1
            (λ j. inl (ap (λ (t : Tables). t.order j) same)) reads looped) in
      let (es, from, effect) = insert_events-Appended p l events s2 inserted in
      record {
        changed = λ j o row match.
            let (now, changed) =
              matched_changed filters s os found sets (tables s2) assigned j o row match in
            (now, ap (λ (t : Tables). t.order j) effect ∙ changed);
        kept = λ j other.
            ap (λ (t : Tables). t.order j) effect
            ∙ unmatched_kept filters s os found sets (tables s2) assigned j other;
        stored = es;
        from_asked = from;
        appended = ap (λ (t : Tables). t.events) effect ∙ ap (λ e. e ++ es) assigned.events;
      }

  module _ (user : String) (events : List OutboxCreateInput) (s : p.State) where
    -- If AnonymizeUserOrdersAndCancelUnpaid returns no error, every order of the user has been
    -- anonymized, and cancelled where it was unpaid; all other rows are as they were, and the outbox
    -- has one more event for each entry, in their order.
    pub anonymize-IsCleanedUp :
        (email : String)
        → (anonymize_user_orders_and_cancel_unpaid p user email events s).0 ≡ ok tt
        → IsCleanedUp
            (λ o. o.user_id ≡ user)
            (anonymized email)
            (asked_each events)
            (tables s)
            (tables (anonymize_user_orders_and_cancel_unpaid p user email events s).1)
    unfolding anonymize_user_orders_and_cancel_unpaid anonymize_orders
    anonymize-IsCleanedUp email h =
        let (os, found, h, same) = continue-ok _ _ _ h in
        let (_, looped, inserted, same') = continue-ok _ _ _ h in
        subst (IsCleanedUp _ _ _ (tables s)) (sym (ap tables (same ∙ same'))) (
          IsCleanedUp-map _ _ _ _ _ _ _ (λ o. ground (arith, eq_iff o.user_id user))
            (λ now o _. stamped-anonymize_params email o.status now o refl)
            (clean_up _ (anonymize_params email) (anonymize_params-Repeats email) _ events os s
              (wrapped-ok _ _ found) looped inserted))

    -- If CancelUnpaidUserOrders returns no error, every unpaid order of the user has been cancelled
    -- and its payment link cleared; all other rows are as they were, and the outbox has one more
    -- event for each entry, in their order.
    pub cancel_unpaid-IsCleanedUp :
        (cancel_unpaid_user_orders p user events s).0 ≡ ok tt
        → IsCleanedUp
            (λ o. (o.user_id ≡ user) × (o.status ≡ pending_payment))
            banned
            (asked_each events)
            (tables s)
            (tables (cancel_unpaid_user_orders p user events s).1)
    unfolding cancel_unpaid_user_orders cancel_orders
    cancel_unpaid-IsCleanedUp h =
        let (os, found, h, same) = continue-ok _ _ _ h in
        let (_, looped, inserted, same') = continue-ok _ _ _ h in
        subst (IsCleanedUp _ _ _ (tables s)) (sym (ap tables (same ∙ same'))) (
          IsCleanedUp-map _ _ _ _ _ _ _
            (λ o. ground (arith, eq_iff o.user_id user, status_text-eq_pending o.status))
            (λ now o _. refl)
            (clean_up _ (λ _. cancel_params) banned-Repeats _ events os s (wrapped-ok _ _ found)
              looped inserted))
