-- ===== src/Server.antt =====
-- The server core (twins/crates/twin-server-core/src/lib.rs), generic in the twin that it serves.
pub mod Types
pub mod Runtime
pub mod Sessions
pub mod Control
pub mod Consistent
pub mod Creating
pub mod Ending
pub mod Race
pub mod Reading
pub mod DriveTwin
pub mod Tokens
pub mod Validation
pub mod Scenario
pub mod Faults
pub mod Play
pub mod RunScenario
pub mod RunExamples
pub mod Runs
pub mod Examples
pub mod ScenarioExamples
pub mod Applying
pub mod Requests
