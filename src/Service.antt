-- ===== src/Service.antt =====
-- internal/service/order_service.go. Events and Response build what leaves the service, Checkout,
-- Customer, Webhook, Admin, Simulate and Users are its methods.
pub mod Events
pub mod Response
pub mod Checkout
pub mod Customer
pub mod Webhook
pub mod Admin
pub mod Simulate
pub mod Users
pub mod Changes
