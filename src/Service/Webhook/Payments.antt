-- ===== src/Service/Webhook/Payments.antt =====
-- What a notification leaves in the row of its order: ProcessMidtransWebhook of order_service.go hands
-- the time of the call on as the time of payment, whatever the notification's state is.
use mathlib.Core.Option
use store_order.Base.{none, some}
use store_order.Schema.{Time, OrderStatus, OrderModel}
use store_order.Runtime.{Runtime}
use store_order.Prisma.{Prisma}
use store_order.Prisma.Tables.{Tables}
use store_order.Midtrans.{WebhookNotification}
use store_order.Repository.Orders.Columns.{moved}
use store_order.Service.Webhook.{payment_meta}

-- the row `o` after a notification that brings it to another state
abbrev paid_row : WebhookNotification → OrderStatus → Time → Time → OrderModel → OrderModel
paid_row notif target now at o = moved target (some (payment_meta notif now)) none at o
