-- ===== src/Tests.antt =====
-- Concrete inputs, and the theorems at them.
mod Mock
mod Engine
mod Deploying
mod Procedures
mod Files
mod Names
mod Ports
mod Environment
mod Tables
mod Rendering
mod Relaying
mod Checks
mod Jobs
mod Locks
mod Metrics
mod Commands
mod Apps
