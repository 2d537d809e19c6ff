-- ===== src/Scenarios/Administration.antt =====
-- AdminUpdateStatus of internal/service/order_service.go on the database of
-- Fixtures.
