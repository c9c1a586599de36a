-- ===== src/Agent.antt =====
-- core/agent: the registry of agent classes and its search for circular dependencies.
pub mod Cycles
pub mod Registry
pub mod Setup
pub mod Samples
