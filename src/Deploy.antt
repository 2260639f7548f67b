-- ===== src/Deploy.antt =====
-- system/orchestrator/src/deploy.rs: blue/green deployment.
pub mod Plan
pub mod Deps
pub mod Container
pub mod Health
pub mod Flow
pub mod Real
