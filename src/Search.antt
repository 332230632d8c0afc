-- ===== src/Search.antt =====
-- Search: the registry of ranking strategies and the weights that a search runs with.
pub mod Registry
pub mod Ranking
pub mod Filters
