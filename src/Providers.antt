-- ===== src/Providers.antt =====
-- The model providers' cooldowns and the fallback chain, PinchBot/pkg/providers.
pub mod Cooldown
pub mod ModelRef
pub mod Fallback
pub mod Chain
mod Tests
