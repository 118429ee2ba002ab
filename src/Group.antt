-- ===== src/Group.antt =====
-- The membership of a lockspace (group/dlm_controld/cpg.c): changes, start messages, and when the
-- kernel may go on.
pub mod Types
pub mod History
pub mod Conditions
pub mod Start
pub mod Changes
pub mod Adding
pub mod Callbacks
pub mod Queries
pub mod Control
pub mod Matching
pub mod Outcome
pub mod Stages
pub mod Added
mod Examples
