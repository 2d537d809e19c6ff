-- ===== src/LifeCycle/Rows.antt =====
-- The relation on rows that a call with a permission keeps to, and what the methods of
-- order_repository.go do in its terms.
use store_order.Base.{
  ◌≡◌, refl, sym, ◌∙◌, List, [], ◌∷◌, Option, none, some, inl, inr, ◌⊎◌, arith, subst,
}
use store_order.Schema.{
  Time, OrderStatus, OrderModel, OrderItemModel, OrderSet, set_status, apply_sets, apply_set,
}
use store_order.Prisma.Tables.{stamped, with_item}
use store_order.Prisma.Changes.{IsPreorder}
use store_order.Repository.{PaymentMetadata, ShippingMetadata}
use store_order.Repository.Orders.{update_params}
use store_order.LifeCycle.{Permit, nothing, cancel_unpaid, move_to, Permits}

-- The columns that no call changes.
pub record IsSameOrder (o o' : OrderModel) : Type 0 where
  pub id : o'.id ≡ o.id
  pub order_number : o'.order_number ≡ o.order_number
  pub user_id : o'.user_id ≡ o.user_id
  pub total_amount : o'.total_amount ≡ o.total_amount
  pub created_at : o'.created_at ≡ o.created_at

abbrev pub Follows : Permit → OrderModel → OrderModel → Type 0
Follows q o o' = IsSameOrder o o' × ((o'.status ≡ o.status) ⊎ Permits q o.status o'.status)

IsSameOrder-refl : (o : OrderModel) → IsSameOrder o o
IsSameOrder-refl o = record {
  id = refl;
  order_number = refl;
  user_id = refl;
  total_amount = refl;
  created_at = refl;
}

pub IsSameOrder-trans : {a b c : OrderModel} → IsSameOrder a b → IsSameOrder b c → IsSameOrder a c
IsSameOrder-trans h k = record {
  id = k.id ∙ h.id;
  order_number = k.order_number ∙ h.order_number;
  user_id = k.user_id ∙ h.user_id;
  total_amount = k.total_amount ∙ h.total_amount;
  created_at = k.created_at ∙ h.created_at;
}

-- Two permitted steps of one call are one.
Permits-trans :
    (q : Permit) (a b c : OrderStatus)
    → (b ≡ a) ⊎ Permits q a b
    → (c ≡ b) ⊎ Permits q b c
    → (c ≡ a) ⊎ Permits q a c
Permits-trans q a b c (inl e) (inl f) = inl (f ∙ e)
Permits-trans q a b c (inl e) (inr h) = inr (subst (λ x. Permits q x c) e h)
Permits-trans q a b c (inr h) (inl f) = inr (subst (Permits q a) (sym f) h)
Permits-trans nothing a b c (inr h) (inr k) = elim h [ ]
Permits-trans cancel_unpaid a b c (inr h) (inr k) = inr (h.0, k.1)
Permits-trans (move_to target) a b c (inr h) (inr k) = inr k

pub Follows-IsPreorder : (q : Permit) → IsPreorder (Follows q)
Follows-IsPreorder q = record {
  same = λ o. (IsSameOrder-refl o, inl refl);
  after =
      λ a b c h k. (IsSameOrder-trans h.0 k.0, Permits-trans q a.status b.status c.status h.1 k.1);
}

apply_set-IsSameOrder : (set : OrderSet) (o : OrderModel) → IsSameOrder o (apply_set set o)
apply_set-IsSameOrder (set_status v) o = ground arith
apply_set-IsSameOrder _ o = ground arith

pub apply_sets-IsSameOrder :
    (sets : List OrderSet) (o : OrderModel) → IsSameOrder o (apply_sets sets o)
apply_sets-IsSameOrder [] o = IsSameOrder-refl o
apply_sets-IsSameOrder (set ∷ sets) o =
    IsSameOrder-trans (apply_set-IsSameOrder set o) (apply_sets-IsSameOrder sets (apply_set set o))

-- An update changes no column of these.
pub stamped-IsSameOrder :
    (sets : List OrderSet) (now : Time) (o : OrderModel) → IsSameOrder o (stamped sets now o)
stamped-IsSameOrder sets now o =
    let h = apply_sets-IsSameOrder sets o in
    record {
      id = h.id;
      order_number = h.order_number;
      user_id = h.user_id;
      total_amount = h.total_amount;
      created_at = h.created_at;
    }

pub with_item-Follows :
    (q : Permit) (o : OrderModel) (i : OrderItemModel) → Follows q o (with_item i o)
with_item-Follows q o i = (
  record { id = refl; order_number = refl; user_id = refl; total_amount = refl; created_at = refl },
  inl refl,
)

-- UpdateOrderStatusWithOutbox assigns the status that it is called with.
pub status-update_params :
    (status : OrderStatus) (meta : Option PaymentMetadata) (shipping : Option ShippingMetadata)
    (now : Time) (o : OrderModel)
    → (stamped (update_params status meta shipping) now o).status ≡ status
status-update_params status none none now o = refl
status-update_params status none (some x) now o = ground arith
status-update_params status (some m) none now o = go m.paid_at refl
  where
    go :
        (t : Option Time)
        → m.paid_at ≡ t
        → (stamped (update_params status (some m) none) now o).status ≡ status
    go none e = rw e (ground arith)
    go (some t) e = rw e (ground arith)
status-update_params status (some m) (some x) now o = go m.paid_at refl
  where
    go :
        (t : Option Time)
        → m.paid_at ≡ t
        → (stamped (update_params status (some m) (some x)) now o).status ≡ status
    go none e = rw e (ground arith)
    go (some t) e = rw e (ground arith)
