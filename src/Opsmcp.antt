-- ===== src/Opsmcp.antt =====
-- internal/opsmcp: the read-only tools of the agent.
pub mod Logs
