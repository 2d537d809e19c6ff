-- ===== src/Scenarios/Lives.antt =====
-- Calls of internal/service/order_service.go one after the other, on the database of Fixtures.
use store_order.Base.{List, [], ◌∷◌, map, err, Result, false}
use store_order.Schema.{Float64}
use store_order.Prisma.Memory.{memory}
use store_order.Prisma.Memory.Rows.{tables}
use store_order.Prisma.Memory.Laws.{memory_laws}
use store_order.Prisma.Changes.{Changes}
use store_order.Product.{ItemOrderRequest, ValidatedItem}
use store_order.Midtrans.{SnapTransactionRequest, SnapResponse}
use store_order.LifeCycle.{Call, cancels, notifies, permit_of, perform_all}
use store_order.LifeCycle.Refinement.{Lives, perform_all-Lives}
use store_order.Scenarios.Fixtures.{surroundings, draw, shop}
use store_order.Scenarios.Webhooks.{settlement, forged}

abbrev pub no_products : List ItemOrderRequest → Result (List ValidatedItem × Float64)
no_products items = err "unreachable"

abbrev pub no_snap : SnapTransactionRequest → Result SnapResponse
no_snap request = err "unreachable"

-- A forged notification, the genuine one, and a cancellation that comes too late.
abbrev calls : List Call
calls = notifies draw 7 forged ∷ notifies draw 7 settlement ∷ cancels draw "ann" "o1" ∷ []

perform_all-Lives_example :
    Changes
      (Lives (map (permit_of surroundings "key" false) calls))
      (tables shop)
      (tables (perform_all surroundings "key" false memory no_products no_snap calls shop))
perform_all-Lives_example =
    perform_all-Lives memory surroundings "key" false no_products no_snap memory_laws calls shop
