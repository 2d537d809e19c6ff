-- ===== src/Scenarios.antt =====
-- The theorems at concrete inputs: Fixtures has the surroundings and the stored orders, and each other
-- module says at its top which code it runs.
mod Fixtures
mod Orders
mod Customers
mod Webhooks
mod Products
mod Signatures
mod Publishing
mod Requests
mod Users
mod Deliveries
mod Accounts
mod Checkouts
mod Administration
mod Endpoints
mod Lives
mod Matching
mod Servers
mod Loops
mod Races
