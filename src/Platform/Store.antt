-- ===== src/Platform/Store.antt =====
-- The state of `MemoryStore`, Platform/internal/service/memory_store.go. The child modules hold
-- its methods. Each takes the receiver's lock for its whole body, so a call is one step; it takes
-- the state and returns it beside its result.
pub mod State
pub mod Users
pub mod Wallet
pub mod Orders
pub mod Refunds
pub mod Entries
