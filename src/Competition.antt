-- ===== src/Competition.antt =====
-- internal/domain/competition: series formats and scores, teams, events, matches, broadcasts.
pub mod Series
pub mod Catalog
