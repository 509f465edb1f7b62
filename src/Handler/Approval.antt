-- ===== src/Handler/Approval.antt =====
-- handler/approval.go: the life of an approval request.
pub mod World
pub mod Changes
pub mod Execute
pub mod Flow
pub mod Handled
pub mod AppliedEffects
pub mod ExecutedEffects
pub mod Locked
pub mod Lifecycle
pub mod SentOnce
pub mod Authority
mod Examples
