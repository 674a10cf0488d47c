-- ===== src/Chat.antt =====
-- internal/domain/chat: who may manage a chat, and the settings of a chat.
pub mod Authorization
pub mod Access
pub mod Managers
pub mod Presence
pub mod Settings
pub mod Invitations
pub mod Spending
pub mod Encoding
pub mod Approvals
