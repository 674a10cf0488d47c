-- ===== src/Outbox.antt =====
-- The transactional outbox: its table (Table), the dispatcher over it (Dispatch), what one message
-- leaves behind (Outcomes), the budget of attempts (Budget), the interleavings with other writers
-- (History), delivery (Delivery), and the messages given up on (Letters, Watch).
pub mod Table
pub mod Dispatch
pub mod Outcomes
pub mod Rows
pub mod Batch
pub mod History
pub mod Sound
pub mod Final
pub mod Once
pub mod Steps
pub mod Delivery
pub mod Budget
pub mod Spending
pub mod Retries
pub mod Letters
pub mod Watch
pub mod Signals
