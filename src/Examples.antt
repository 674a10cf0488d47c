-- ===== src/Examples.antt =====
-- The code run on small inputs, and the theorems applied to them.
mod Data
mod Competitions
mod Scores
mod Settlements
mod Predictions
mod Gateways
mod Chats
mod Subscriptions
mod Outboxes
mod Buttons
mod Requests
mod Enrichments
mod Reviews
