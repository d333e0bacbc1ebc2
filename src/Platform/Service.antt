-- ===== src/Platform/Service.antt =====
-- The payment side of the service: Platform/internal/service, over the store of memory_store.go and a
-- payment provider of Platform/internal/payments.
pub mod Provider
pub mod Recharge
pub mod Refunding
pub mod Reconcile
pub mod Sound
pub mod History
pub mod Frames
pub mod Callback
pub mod Approval
pub mod Closed
pub mod Request
mod Tests
