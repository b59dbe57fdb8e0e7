-- ===== src/Review.antt =====
-- The review harness (tools/ai_review).
pub mod Pricing
pub mod Paths
pub mod Models
pub mod Judge
pub mod Validators
pub mod Workflow
