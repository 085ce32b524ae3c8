-- ===== src/Tests.antt =====
-- Concrete inputs at which the theorems are applied, and tests of the definitions.
mod AuthTests
mod TokenTests
mod CodePoints
mod GovernanceTests
mod LifecycleTests
mod PaginationTests
mod PublicationTests
mod StorageTests
mod SubmissionTests
mod RecommendationTests
mod OrchestratorTests
mod ProviderTests
mod QueueTests
mod WebhookTests
