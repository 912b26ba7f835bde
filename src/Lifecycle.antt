-- ===== src/Lifecycle.antt =====
-- h-app/lib/agentlifecycle/lifecycle.py: how agents are hired, paused, resumed and retired.
pub mod Requests
pub mod Publish
pub mod Start
pub mod Retire
pub mod Agents
pub mod Apart
pub mod Surrender
pub mod Final
pub mod Rejected
pub mod Stages
pub mod Tags
pub mod Configured
pub mod Steps
pub mod Orderly
pub mod Starts
pub mod Retired
pub mod Stops
pub mod Traced
mod Tests
mod StartTests
