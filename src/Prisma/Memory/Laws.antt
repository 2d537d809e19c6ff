-- ===== src/Prisma/Memory/Laws.antt =====
-- The laws of Tables hold of the database in memory.
use store_order.Prisma.Tables.{PrismaLaws}
use store_order.Prisma.Memory.{memory}
use store_order.Prisma.Memory.Rows.{tables, row_of-row_id}
use store_order.Prisma.Memory.Queries.{
  find_order-by_number, find_order-keeps, find_orders_sound, find_orders-complete, find_orders-page,
  find_orders-whole, find_outbox_events_sound, find_order-by_id, find_orders-keeps,
  find_outbox_event-found, find_outbox_event-keeps, find_outbox_events-keeps,
}
use store_order.Prisma.Memory.Writes.{
  create_order-done, update_order-failed, update_order-done, create_order-failed,
  create_order_item-failed, create_order_item-done, create_outbox_event-failed,
  create_outbox_event-done, update_outbox_event-failed, update_outbox_event-done,
}

abbrev pub memory_laws : PrismaLaws memory
memory_laws = record {
  tables = tables;
  row_id = row_of-row_id;
  find_order_keeps = find_order-keeps;
  find_order_by_id = find_order-by_id;
  find_order_by_number = find_order-by_number;
  find_orders_keeps = find_orders-keeps;
  find_orders_sound = find_orders_sound;
  find_orders_complete = find_orders-complete;
  find_orders_page = find_orders-page;
  find_orders_whole = find_orders-whole;
  update_order_failed = update_order-failed;
  update_order_done = update_order-done;
  create_order_failed = create_order-failed;
  create_order_done = create_order-done;
  create_order_item_failed = create_order_item-failed;
  create_order_item_done = create_order_item-done;
  create_outbox_event_failed = create_outbox_event-failed;
  create_outbox_event_done = create_outbox_event-done;
  find_outbox_event_keeps = find_outbox_event-keeps;
  find_outbox_event_found = find_outbox_event-found;
  find_outbox_events_keeps = find_outbox_events-keeps;
  find_outbox_events_sound = find_outbox_events_sound;
  update_outbox_event_failed = update_outbox_event-failed;
  update_outbox_event_done = update_outbox_event-done;
}
