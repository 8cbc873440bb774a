-- ===== src/Tests.antt =====
-- Runs of the theorems at concrete inputs.
mod Fixtures
mod Files
mod Orders
mod Trades
mod Shulkers
mod Warehouse
mod Recovery
mod Shops
mod Purchases
mod Counter
mod Requests
mod Messages
mod Talk
