-- ===== src/Lib.antt =====
-- Verification of the twin servers of agent_sandbox (twins/crates, in Rust): in-memory replicas of
-- Google services that a test harness resets, seeds, drives and inspects.
--
-- Parts and files.
--   Common: shared notation. Common.BTreeMap is Rust's `BTreeMap<String, V>` as a list of entries in
--     the order of its keys (Common.BTreeMap.Order); Common.Text has the functions of `str` and `u64`
--     that the twins call, with decimal numerals in Common.Text.Decimal; Common.Int is `i64`;
--     Common.Outcome is `Result` together with a state that survives an early return.
--   Kernel (twins/crates/twin-kernel/src/lib.rs): `TwinKernel` as a record and each of its methods as
--     a function to the new kernel. Kernel.Log treats the calls as a sequence.
--   Drive (twins/crates/twin-drive/src/lib.rs): Types has the items, requests and responses and the
--     service's state; Access the roles and the counter of identifiers; Create, Read, Change and
--     Delete the branches of `handle`, one function for each request; Handle the dispatch.
--     Outcomes has the two ways in which each request ends and what follows from them; WellFormed the
--     invariant of the state; Delete.Subtree, Loop, Removal, Termination and Cycle are about the
--     loop of the deletion. Drive.Examples has runs, and the theorems at concrete states.
--     Drive.Seed is the seeding from a scenario: Seed.Walk is the induction over its loop, Keeping the
--     invariant, Presence and Rounds what is seeded and when it ends, Seeded the theorems.
--     Drive.Scenario has the twin's assertions and timeline actions, Drive.Acting how an action comes down to
--     a request, Drive.Acted what a timeline keeps, and Drive.ScenarioExamples timelines.
--   Server (twins/crates/twin-server-core/src/lib.rs, with the trait and the runtime of
--     twins/crates/twin-service/src/lib.rs and the documents of twins/crates/twin-scenario/src/lib.rs):
--     Types has the trait `TwinService` as a record, which the handlers take as a parameter, and
--     `AppState`; Runtime the snapshots; Sessions the session store and, in Sessions.Handlers, the
--     handlers of sessions; Control the other control handlers; Applying the handlers that run a
--     scenario (Applying.Sessions: what they leave alone, Applying.Verified: the verification of a
--     replay); Requests sequences of all requests that change the state.
--     Consistent is the invariant of sessions, Creating and Ending the two handlers that change
--     them, Race an interleaving. DriveTwin is the Drive twin as a `TwinService`. Runs is the
--     comparison of runs, Tokens the names of runs, Faults fault injection, Scenario and
--     Validation the documents and their validation. Play is the timeline of a scenario's run and
--     RunScenario the whole run; RunScenario.Canonical forgets what a run leaves alone (its number, the
--     sessions), and RunScenario.Repeated is about running twice. Server.Examples,
--     Server.ScenarioExamples and Server.RunExamples have runs for small twins.
--   Gmail (twins/crates/twin-gmail/src/lib.rs): Types has the messages, threads, labels, requests,
--     responses and the service's state; Threading the private helpers (identifiers, history, snippets,
--     sizes, threads); Messages, Threads, Labels and Listing the branches of `handle`, one function for
--     each request, with Labelling for the lists of labels and Search for the `q` parameter; Handle the
--     dispatch. Scenario and Assertions are the twin's part in a scenario, over the record Json of
--     what it asks of serde_json. Mailbox is the invariant, Mailbox.Filing, Arriving, Changing,
--     Deleting, Emptying and Naming how the requests keep it; Labelling.Sets and Views are about
--     labels as sets, Listing.Order and Listing.Pages about listings, Search.Calendar and Dates about
--     dates, Stored and Sending about sent messages, Refusals about errors (Steps is about
--     what sending and inserting leave when a later step fails), Fresh about the counter and Played
--     about scenarios. Gmail.Runs has runs, Gmail.Samples a mailbox, and Gmail.Examples the theorems at it.
--   Common.Post has the postconditions of operations, Common.Sorting Rust's stable sort, Common.Slices
--     `skip` and `take`, Common.Text.Scan and Split more of `str`.
-- How they interact: a handler of Server reads and writes the kernel (event log, active session) and
-- the twin's service under one lock, and the sessions under another; the service is `DriveTwinService`
-- in the Drive twin, whose `handle` answers the requests and whose `seed_from_scenario` the server
-- calls with the data of a seed.
--
-- Conventions. Strings are texts of Unicode characters, compared as Rust compares them. A `u64` is a
-- number, and its additions wrap around as in a release build. `serde_json::Value` is a parameter of
-- the kernel. An operation on `&mut self` takes the state and returns it beside its result, so that
-- what was written before an early return would show.
--
-- Fuel. The loop of `DeleteItem` (`while i < to_delete.len()`) takes fuel, since it need not end; when
-- the fuel is spent the model answers `still_running`. Drive.Delete.Termination is about the fuel
-- where the chains of parents have no cycle, and Drive.Delete.Cycle about a cycle.
-- The loop of `seed_from_scenario` takes fuel too: `enough_rounds` is twice the number of files and two
-- more: each round but the last takes a seed, or is the first in a row that takes none.
--
-- `trim_start_matches` takes the number of characters as fuel: each cut makes the text shorter.
--
-- Parameters: `decode` (base64), `to_uppercase` and `to_lowercase` (the tables of Unicode), the record
-- Json (serde_json), `is_object` (serde), `hash` (the standard library's DefaultHasher,
-- whose algorithm is left open), `now` (the clock), the twin's own validation, `type_field` and `str_field`
-- (the text of a field of a JSON value), `to_value` (serde's encoding of a response), `snapshot_hash` (that hasher on serde's text of a snapshot) and `persist`
-- (writing a run's artifact to a file, which may fail); the record Outside of Server.Applying has these
-- with `read_scenario`, `read_run` and `read_again` (reading and decoding a file).
--
-- Not modelled: the files of the store of runs, authentication, HTTP routing
-- and the twins' HTTP handlers, JSON encoding, the discovery documents, the file system and the clock.
pub mod Common
pub mod Kernel
pub mod Drive
pub mod Server
pub mod Gmail
