-- ===== src/Gmail.antt =====
-- The Gmail twin (twins/crates/twin-gmail/src/lib.rs): messages, threads, labels and attachments.
pub mod Types
pub mod Threading
pub mod Labelling
pub mod Messages
pub mod Threads
pub mod Labels
pub mod Search
pub mod Listing
pub mod Handle
pub mod Mailbox
pub mod Json
pub mod Scenario
pub mod Assertions
pub mod Played
pub mod Fresh
mod Examples
mod Runs
pub mod Samples
pub mod Steps
pub mod Stored
pub mod Sending
pub mod Refusals
