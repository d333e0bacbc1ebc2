-- ===== src/Platform.antt =====
-- The platform server: wallets, orders, refunds, and the metered proxy of the official models.
pub mod Types
pub mod Store
pub mod Proxy
pub mod Service
pub mod Ledger
pub mod Billing
pub mod Failover
mod Tests
