-- ===== src/Prisma/Memory/Rows.antt =====
-- The rows of the database in memory, found by id and by number.
use store_order.Base.{
  String, ◌≡◌, Option, none, some, List, [], ◌∷◌, ◌==◌, pos_part, arith, eq_iff, Memᴰ, Bool-cases,
  inl, inr, Memᴰ-take, Memᴰ-drop,
}
use store_order.Schema.{OrderModel}
use store_order.Prisma.{Page}
use store_order.Prisma.Tables.{Tables}
use store_order.Prisma.Memory.{Memory, row_of, numbered, IsDistinct, paged}

abbrev pub tables : Memory → Tables
tables m = record { order = λ id. row_of id m.rows; events = m.events }

pub row_of-id :
    (id : String) (os : List OrderModel) {o : OrderModel} → row_of id os ≡ some o → o.id ≡ id
unfolding row_of
row_of-id id [] h = cc
row_of-id id (x ∷ os) {o} h = elim (Bool-cases (x.id == id)) [
  | inl e ↦ ground (arith, eq_iff x.id id)
  | inr e ↦ row_of-id id os {o = o} (ground arith)
]

pub Memᴰ-row_of :
    (os : List OrderModel) (o : OrderModel) → IsDistinct os → Memᴰ o os → row_of o.id os ≡ some o
unfolding row_of
Memᴰ-row_of [] o d m = elim m [ ]
Memᴰ-row_of (x ∷ os) o d (Memᴰ.head e) = ground (arith, eq_iff x.id o.id)
Memᴰ-row_of (x ∷ os) o d (Memᴰ.tail m) = ground (arith, Memᴰ-row_of os o d.1 m, eq_iff x.id o.id)

pub row_of-Memᴰ :
    (id : String) (os : List OrderModel) {o : OrderModel} → row_of id os ≡ some o → Memᴰ o os
unfolding row_of
row_of-Memᴰ id [] h = cc
row_of-Memᴰ id (x ∷ os) {o} h = elim (Bool-cases (x.id == id)) [
  | inl e ↦ Memᴰ.head (ground arith)
  | inr e ↦ Memᴰ.tail (row_of-Memᴰ id os {o = o} (ground arith))
]

pub numbered-Memᴰ :
    (n : String) (os : List OrderModel) {o : OrderModel}
    → numbered n os ≡ some o
    → Memᴰ o os × (o.order_number ≡ n)
unfolding numbered
numbered-Memᴰ n [] h = cc
numbered-Memᴰ n (x ∷ os) {o} h = elim (Bool-cases (x.order_number == n)) [
  | inl e ↦ (Memᴰ.head (ground arith), ground (arith, eq_iff x.order_number n))
  | inr e ↦ let (m, same) = numbered-Memᴰ n os {o = o} (ground arith) in (Memᴰ.tail m, same)
]

pub Memᴰ-paged :
    {A : Type 0} (page : Option Page) (xs : List A) {a : A} → Memᴰ a (paged page xs) → Memᴰ a xs
unfolding paged
Memᴰ-paged none xs m = m
Memᴰ-paged (some p) xs m = Memᴰ-drop (pos_part p.skip) xs (Memᴰ-take (pos_part p.take) _ m)

pub row_of-row_id :
    (m : Memory) (id : String) (o : OrderModel) → row_of id m.rows ≡ some o → o.id ≡ id
row_of-row_id m id o h = row_of-id id m.rows {o = o} h
