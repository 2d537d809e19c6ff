-- ===== src/Service/Admin/Fulfilment.antt =====
-- What AdminUpdateStatus of order_service.go does to an order.
use store_order.Base.{List, [], ◌∷◌, String, ◌≡◌, some, ◌⊎◌, arith, eq_iff, trim_space}
use store_order.Schema.{
  Time, OrderStatus, OrderModel, OutboxEventModel, processing, shipped, completed, cancelled,
  status_text,
}
use store_order.Runtime.{Runtime, Draw, upper_text}
use store_order.Prisma.{Prisma}
use store_order.Prisma.Tables.{PrismaLaws, Tables, change_order, add_events}
use store_order.Repository.Orders.Columns.{given}
use store_order.Service.Events.Telling.{AreTold}
use store_order.Service.Admin.{target_of}

-- A requested status is accepted where it names one that an administrator may set.
pub target_of_sound :
    (rt : Runtime) (requested : String) (target : OrderStatus)
    → target_of rt requested ≡ some target
    → (upper_text rt (trim_space requested) ≡ status_text target)
      × ((target ≡ processing)
          ⊎ ((target ≡ shipped) ⊎ ((target ≡ completed) ⊎ (target ≡ cancelled))))
unfolding target_of
target_of_sound rt requested target h =
    let s = upper_text rt (trim_space requested) in
    ground
      (arith, eq_iff s "PROCESSING", eq_iff s "SHIPPED", eq_iff s "COMPLETED", eq_iff s "CANCELLED")

-- The types of the events by which an administrator's update is announced.
abbrev pub told_as : OrderStatus → List String
told_as shipped = "order.fulfilled" ∷ []
told_as cancelled = "order.cancelled" ∷ []
told_as _ = []

-- what is given of the shipping; two empty texts give nothing
abbrev pub shipped_with : String → String → OrderModel → OrderModel
shipped_with courier receipt o = record o {
  courier_name = given courier o.courier_name;
  receipt_number = given receipt o.receipt_number;
}

-- the row after an update to `target` at the time `now`
abbrev pub fulfilled : OrderStatus → String → String → Time → OrderModel → OrderModel
fulfilled target courier receipt now o = record (shipped_with courier receipt o) {
  status = target;
  updated_at = now;
}

module _ (p : Prisma) (rt : Runtime) (l : PrismaLaws p) (draw : Draw)
    (id requested courier receipt : String) (s : p.State) where
  open l use {tables}

  -- what an update to `target` did between these tables
  abbrev pub Fulfils : OrderStatus → Tables → Tables → Type 0
  Fulfils target t t' =
      (o : OrderModel) × (t.order id ≡ some o)
      × ((now : Time) × (es : List OutboxEventModel) × AreTold rt id (told_as target) es
          × (t' ≡ add_events es (change_order id (fulfilled target courier receipt now) t)))
