-- ===== src/Subscription.antt =====
-- internal/domain/subscription: what a chat may see of a tournament.
pub mod Scope
pub mod Entitled
