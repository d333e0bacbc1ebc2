-- ===== src/Routing.antt =====
-- The routing of messages to agents: PinchBot/pkg/routing.
pub mod AgentId
pub mod SessionKey
pub mod Route
pub mod Tests
