-- ===== src/Prediction.antt =====
-- internal/domain/prediction and its PostgreSQL repository: polls, votes, and their life.
pub mod Poll
pub mod Effects
pub mod Store
pub mod Repository
pub mod Rows
pub mod Keeps
pub mod Service
pub mod Lifecycle
pub mod Queries
pub mod Transitions
pub mod Keys
pub mod Creation
pub mod Voting
pub mod VoteFrames
