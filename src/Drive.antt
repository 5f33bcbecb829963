-- ===== src/Drive.antt =====
-- The Drive twin (twins/crates/twin-drive/src/lib.rs).
pub mod Types
pub mod Items
pub mod Access
pub mod Create
pub mod Read
pub mod Change
pub mod Delete
pub mod Seed
pub mod Handle
pub mod Scenario
pub mod Acting
pub mod Acted
mod ScenarioExamples
pub mod Outcomes
pub mod WellFormed
pub mod Examples
