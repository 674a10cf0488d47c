-- ===== src/Enrichment.antt =====
-- The domain rules by which teams and players of different feeds are matched: internal/domain/enrichment.
pub mod Names
pub mod Distance
pub mod Similarity
pub mod Identity
pub mod Rosters
pub mod Reviews
