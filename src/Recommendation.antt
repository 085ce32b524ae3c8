-- ===== src/Recommendation.antt =====
-- src/recommendation/: what a teacher is recommended. Personalization reads the signals of a user,
-- Aggregation builds the feed and the summary of distributions from rows that the caller has read.
pub mod Personalization
pub mod Aggregation
