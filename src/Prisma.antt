-- ===== src/Prisma.antt =====
-- The database client that is generated from prisma/schema.prisma is not part of the sources: it is
-- a parameter. `Prisma` has the queries that the repositories build, each an action on a state that
-- stays abstract; `PrismaLaws` states what is documented of them, through the tables that a state
-- holds. Prisma/Memory has an instance.
pub mod Tables
pub mod Changes
pub mod Memory
use store_order.Base.{String, Option, List, ℤ, Action, Bool}
use store_order.Schema.{
  Float64, OrderStatus, OutboxStatus, OrderModel, OrderItemModel, OutboxEventModel, OrderSet,
  OutboxSet,
}

-- db.Order.CreateOne(…): the required columns, then the optional assignments
pub record NewOrder : Type 0 where
  pub order_number : String
  pub user_id : String
  pub user_email : String
  pub total_amount : Float64
  pub params : List OrderSet

-- db.OrderItem.CreateOne(…)
pub record NewOrderItem : Type 0 where
  pub order_id : String
  pub product_id : String
  pub variant_id : String
  pub product_name : String
  pub sku : String
  pub price : Float64
  pub quantity : ℤ
  pub subtotal : Float64
  pub variant_name : String

-- db.OutboxEvent.CreateOne(…)
pub record NewOutboxEvent : Type 0 where
  pub aggregate_id : String
  pub topic : String
  pub payload : String
  pub aggregate_type : String

-- the argument of `FindUnique`
pub data OrderKey : Type 0 where
  by_id : String → OrderKey
  by_order_number : String → OrderKey

-- db.OrderWhereParam; a status to compare with is any text in Go
pub data OrderWhere : Type 0 where
  user_id_equals : String → OrderWhere
  status_in : List OrderStatus → OrderWhere
  status_equals : String → OrderWhere
  order_number_contains : String → OrderWhere

pub record Page : Type 0 where
  pub take : ℤ
  pub skip : ℤ

-- db.Order.FindMany(…): `with_items` where the relation is fetched, `newest_first` where the rows
-- are ordered by `createdAt` descending
pub record OrderQuery : Type 0 where
  pub filters : List OrderWhere
  pub with_items : Bool
  pub newest_first : Bool
  pub page : Option Page

pub record Prisma : Type 1 where
  pub State : Type 0
  pub create_order : NewOrder → Action State OrderModel
  pub create_order_item : NewOrderItem → Action State OrderItemModel
  pub create_outbox_event : NewOutboxEvent → Action State OutboxEventModel
  pub find_order : OrderKey → Action State (Option OrderModel)
  pub find_orders : OrderQuery → Action State (List OrderModel)
  pub update_order : String → List OrderSet → Action State OrderModel
  pub find_outbox_event : String → Action State OutboxEventModel
  -- the pending events by `createdAt` ascending, at most so many
  pub find_outbox_events : OutboxStatus → ℤ → Action State (List OutboxEventModel)
  pub update_outbox_event : String → List OutboxSet → Action State OutboxEventModel
