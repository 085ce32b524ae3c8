-- ===== src/Governance/RateLimit.antt =====
-- src/governance/rate_limit.rs: policies, fixed-window buckets and the check before a call of the
-- LLM. The two tables are lists of rows; the database answers each statement.
pub mod Types
pub mod Tables
pub mod Buckets
pub mod Windows
pub mod Counters
pub mod Preflight
pub mod Serving
pub mod Enforcement
pub mod Policies
