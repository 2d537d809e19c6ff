-- ===== src/Prisma/Changes.antt =====
-- What the queries do to the stored orders, whether they succeed or fail: every order stays stored,
-- and its row before and after is in a relation, such as one on its status or its owner.
use store_order.Base.{
  List, String, ◌≡◌, refl, sym, ◌∙◌, ap, subst, none, some, ok, err, inl, inr, Result-cases,
  Bool-cases, ◌==◌, eq_iff, Action, continue, Result,
}
use store_order.Schema.{Time, OrderModel, OrderItemModel, OrderSet}
use store_order.Prisma.{Prisma, NewOrder, NewOrderItem, NewOutboxEvent, OrderKey, OrderQuery}
use store_order.Prisma.Tables.{Tables, PrismaLaws, change_order, insert_order, stamped, with_item}

pub record IsPreorder (P : OrderModel → OrderModel → Type 0) : Type 0 where
  pub same : (o : OrderModel) → P o o
  pub after : (a b c : OrderModel) → P a b → P b c → P a c

-- Every row is still there, changed as the relation says.
pub record Changes (P : OrderModel → OrderModel → Type 0) (t t' : Tables) : Type 0 where
  pub row :
      (id : String) (o : OrderModel)
      → t.order id ≡ some o
      → (o' : OrderModel) × (t'.order id ≡ some o') × P o o'

pub Changes_weaken :
    {P Q : OrderModel → OrderModel → Type 0} {t t' : Tables}
    → ((a b : OrderModel) → P a b → Q a b)
    → Changes P t t'
    → Changes Q t t'
Changes_weaken f c = record {
  row = λ id o here. let (o', there, h) = c.row id o here in (o', there, f o o' h);
}

module _ (P : OrderModel → OrderModel → Type 0) (pre : IsPreorder P) where
  pub Changes_refl : (t : Tables) → Changes P t t
  Changes_refl t = record { row = λ id o here. (o, here, pre.same o) }

  pub Changes_of_eq : {t t' : Tables} → t' ≡ t → Changes P t t'
  Changes_of_eq {t} e = subst (Changes P t) (sym e) (Changes_refl t)

  pub Changes_trans : {t u v : Tables} → Changes P t u → Changes P u v → Changes P t v
  Changes_trans c d = record {
    row = λ id o here.
        let (o', there, h) = c.row id o here in
        let (o'', last, k) = d.row id o' there in (o'', last, pre.after o o' o'' h k);
  }

  change_order-Changes :
      (id : String) (f : OrderModel → OrderModel) (t : Tables)
      → ((o : OrderModel) → t.order id ≡ some o → P o (f o))
      → Changes P t (change_order id f t)
  change_order-Changes id f t h = record {
    row = λ j o here. elim (Bool-cases (id == j)) [
      | inl e ↦ let k = (eq_iff id j).0 e in (f o, rw (e, here) refl, h o (ap t.order k ∙ here))
      | inr e ↦ (o, rw e here, pre.same o)
    ];
  }

  insert_order-Changes :
      (o : OrderModel) (t : Tables) → t.order o.id ≡ none → Changes P t (insert_order o t)
  insert_order-Changes o t fresh = record {
    row = λ j o' here. elim (Bool-cases (o.id == j)) [
      | inl e ↦ absurd (none-ne-some (sym fresh ∙ ap t.order ((eq_iff o.id j).0 e) ∙ here))
      | inr e ↦ (o', rw e here, pre.same o')
    ];
  }
    where
      none-ne-some : {x : OrderModel} → ¬ (none ≡ some x)
      none-ne-some h = cc

  module _ (p : Prisma) (l : PrismaLaws p) where
    open l use {tables}

    -- No step of an action does more to the orders.
    abbrev pub Within : {A : Type 0} → Action p.State A → p.State → Type 0
    Within m s = Changes P (tables s) (tables (m s).1)

    pub find_order-Within : (k : OrderKey) (s : p.State) → Within (p.find_order k) s
    find_order-Within k s = Changes_of_eq (l.find_order_keeps k s)

    pub find_orders-Within : (q : OrderQuery) (s : p.State) → Within (p.find_orders q) s
    find_orders-Within q s = Changes_of_eq (l.find_orders_keeps q s)

    pub update_order-Within :
        (id : String) (sets : List OrderSet) (s : p.State)
        → ((o : OrderModel) (now : Time) → (tables s).order id ≡ some o → P o (stamped sets now o))
        → Within (p.update_order id sets) s
    update_order-Within id sets s h = elim (Result-cases (p.update_order id sets s).0) [
      | inl (o, e) ↦
          let (now, done) = l.update_order_done id sets s o e in
          subst (Changes P (tables s)) (sym done)
            (change_order-Changes id (stamped sets now) (tables s) λ o here. h o now here)
      | inr (x, e) ↦ Changes_of_eq (l.update_order_failed id sets s x e)
    ]

    pub create_order-Within : (n : NewOrder) (s : p.State) → Within (p.create_order n) s
    create_order-Within n s = elim (Result-cases (p.create_order n s).0) [
      | inl (o, e) ↦
          let (fresh, _, done) = l.create_order_done n s o e in
          subst (Changes P (tables s)) (sym done) (insert_order-Changes o (tables s) fresh)
      | inr (x, e) ↦ Changes_of_eq (l.create_order_failed n s x e)
    ]

    pub create_order_item-Within :
        (n : NewOrderItem) (s : p.State)
        → ((o : OrderModel) (i : OrderItemModel)
            → (tables s).order n.order_id ≡ some o
            → P o (with_item i o))
        → Within (p.create_order_item n) s
    create_order_item-Within n s h = elim (Result-cases (p.create_order_item n s).0) [
      | inl (i, e) ↦
          let (_, done) = l.create_order_item_done n s i e in
          subst (Changes P (tables s)) (sym done)
            (change_order-Changes n.order_id (with_item i) (tables s) λ o here. h o i here)
      | inr (x, e) ↦ Changes_of_eq (l.create_order_item_failed n s x e)
    ]

    pub create_outbox_event-Within :
        (n : NewOutboxEvent) (s : p.State) → Within (p.create_outbox_event n) s
    create_outbox_event-Within n s = elim (Result-cases (p.create_outbox_event n s).0) [
      | inl (e, h) ↦
          let (_, done) = l.create_outbox_event_done n s e h in
          subst (Changes P (tables s)) (sym done)
            (record { row = λ id o here. (o, here, pre.same o) })
      | inr (x, h) ↦ Changes_of_eq (l.create_outbox_event_failed n s x h)
    ]

    -- Two steps one after the other, the second being asked only where the first has a result.
    pub continue-Within :
        {A B : Type 0} (r : Result A) (f : A → Action p.State B) (s s' : p.State)
        → Changes P (tables s) (tables s')
        → ((a : A) → r ≡ ok a → Changes P (tables s') (tables (f a s').1))
        → Changes P (tables s) (tables (continue r f s').1)
    continue-Within (ok a) f s s' c h = Changes_trans c (h a refl)
    continue-Within (err e) f s s' c h = c
