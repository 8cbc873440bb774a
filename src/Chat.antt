-- ===== src/Chat.antt =====
-- src/chat, the assistant that talks with players: the parts of it that only compute.
pub mod Distance
pub mod Routing
pub mod SpamGuard
