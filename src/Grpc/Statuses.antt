-- ===== src/Grpc/Statuses.antt =====
-- The two maps of internal/grpc/mapper.go between statuses.
use store_order.Base.{◌≡◌, ◌↔◌, refl, ◌∙◌, ap, some, arith}
use store_order.Schema.{
  OrderStatus, pending_payment, paid, processing, shipped, completed, cancelled, expired,
}
use store_order.Grpc.{
  ProtoStatus, proto_pending_payment, proto_paid, proto_processing, proto_shipped, proto_completed,
  proto_cancelled, proto_expired, map_db_status_to_proto, map_proto_status_to_db,
}

proto_of_db : (st : OrderStatus) → map_proto_status_to_db (map_db_status_to_proto st) ≡ some st
unfolding map_db_status_to_proto map_proto_status_to_db
proto_of_db pending_payment = refl
proto_of_db paid = refl
proto_of_db processing = refl
proto_of_db shipped = refl
proto_of_db completed = refl
proto_of_db cancelled = refl
proto_of_db expired = refl

db_of_proto :
    (q : ProtoStatus) (st : OrderStatus)
    → map_proto_status_to_db q ≡ some st
    → q ≡ map_db_status_to_proto st
unfolding map_db_status_to_proto map_proto_status_to_db
db_of_proto proto_pending_payment pending_payment h = refl
db_of_proto proto_paid paid h = refl
db_of_proto proto_processing processing h = refl
db_of_proto proto_shipped shipped h = refl
db_of_proto proto_completed completed h = refl
db_of_proto proto_cancelled cancelled h = refl
db_of_proto proto_expired expired h = refl
db_of_proto q st h = ground arith

-- A number from outside is mapped to a status exactly when it is the number that the status is mapped
-- to: the two maps are inverse to each other, and every other number is refused.
pub map_proto_status_to_db_iff :
    (q : ProtoStatus) (st : OrderStatus)
    → (map_proto_status_to_db q ≡ some st) ↔ (q ≡ map_db_status_to_proto st)
map_proto_status_to_db_iff q st =
    (db_of_proto q st, λ e. ap map_proto_status_to_db e ∙ proto_of_db st)
