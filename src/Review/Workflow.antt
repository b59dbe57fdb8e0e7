-- ===== src/Review/Workflow.antt =====
-- tools/ai_review/outer_workflow_state.py: the fixed chain of seven phases.
pub mod Codec
pub mod Request
pub mod Prepared
pub mod Completeness
pub mod Artifacts
pub mod Finalized
pub mod Run
pub mod Facts
pub mod Handover
pub mod Measured
pub mod Chain
pub mod Kind
pub mod Examples
