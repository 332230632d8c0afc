-- ===== src/AgentWrite.antt =====
-- Writes by agents: packages/kb-core/src/agent-write.
pub mod PathPolicy
pub mod Request
pub mod ApprovalPolicy
pub mod Approvals
