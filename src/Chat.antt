-- ===== src/Chat.antt =====
-- Chat: src/modules/conversations/conversations.service.ts.
pub mod Conversations
pub mod Access
mod Scenarios
