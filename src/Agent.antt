-- ===== src/Agent.antt =====
-- internal/agent: the heartbeat service (Heartbeat), the registration service (Registration), the
-- periodic tasks of the agent (Tasks), and the agent that makes, starts and stops them (Orchestrator).
pub mod Heartbeat
pub mod Registration
pub mod Tasks
pub mod Orchestrator
