-- ===== src/Scoring.antt =====
-- internal/domain/scoring: points for predictions, dense ranking, settlement of a poll, and the
-- nominations of a tournament.
pub mod Points
pub mod Ranking
pub mod Settle
pub mod Milestones
pub mod Nominations
