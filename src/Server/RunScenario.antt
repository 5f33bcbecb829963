-- ===== src/Server/RunScenario.antt =====
-- `run_scenario` and `evaluate_assertions` (twins/crates/twin-server-core/src/lib.rs). `snapshot_hash`
-- is the standard library's hasher over serde's text of a snapshot, and `persist` writes an artifact
-- to a file, with a message where it fails.
pub mod Canonical
pub mod Repeated
use agent_sandbox.Server.Runtime.{full_snapshot}
use agent_sandbox.Common.Sorting.{sort_by}
use agent_sandbox.Server.Sessions.Handlers.{with_kernel}
use agent_sandbox.Server.Tokens.{run_name}
use agent_sandbox.Common.BTreeMap.{insert}
use agent_sandbox.Kernel.{TwinState, TwinKernel, TwinConfig, set_metadata}
use agent_sandbox.Server.Play.{
  PlayState, Progress, RunError, ScenarioTwin, run_error, no_progress, report_body, run_timeline,
}
use agent_sandbox.Server.Runs.{ScenarioRunReport, AssertionResult, RunArtifact}
use agent_sandbox.Server.Types.{TwinService, message, TwinRuntime}
use agent_sandbox.Server.Scenario.{TimelineEvent, ScenarioDocument, FaultRule}
use agent_sandbox.Server.Runtime
use agent_sandbox.Common.{
  [], none, some, ok, err, List, Option, String, TwinError, Result, Bool, if◌then◌else◌, ℕ, false,
  ltb, ◌==◌, ◌<>◌, length, filter, ◌+◌, not, map, ◌%◌, u64_mod, to_string,
}

pub record StoredRun (V : Type 0) : Type 0 where
  pub report : ScenarioRunReport
  pub scenario : ScenarioDocument V

abbrev pub RunState : Type 0 → Type 0 → Type 0
RunState V T = PlayState V T (StoredRun V)

-- What a run has found out when its timeline and assertions are done.
pub record Findings : Type 0 where
  pub status : String
  pub error : Option String
  pub api_error : Option RunError
  pub progress : Progress
  pub assertions : List AssertionResult
  pub failed : ℕ

abbrev pub seed_refused : TwinError → Findings
seed_refused e = record {
  status = "error";
  error = some "initial_state failed";
  api_error = some (run_error 400 (message e));
  progress = no_progress;
  assertions = [];
  failed = 0;
}

abbrev pub timeline_failed : Progress → String → RunError → Findings
timeline_failed p text e = record {
  status = "error";
  error = some text;
  api_error = some e;
  progress = p;
  assertions = [];
  failed = 0;
}

abbrev pub count_failed : List AssertionResult → ℕ
count_failed results = length (filter (λ a. not a.passed) results)

abbrev pub asserted : Progress → List AssertionResult → Findings
asserted p results = record {
  status = if ltb 0 (count_failed results) then "assertion_failed" else "ok";
  error = none;
  api_error =
      if ltb 0 (count_failed results)
      then some (run_error 422 "scenario assertions failed")
      else none;
  progress = p;
  assertions = results;
  failed = count_failed results;
}

-- The rule's own identifier stands in the result.
abbrev pub assertion_of : String → Result TwinError AssertionResult → AssertionResult
assertion_of id (ok a) = record a { id = id }
assertion_of id (err e) = record {
  id = id;
  passed = false;
  message = "assertion evaluation error: " <> message e;
}

-- An answer with the status 422 has the report for its body.
abbrev pub with_report : ScenarioRunReport → Option RunError → Option RunError
with_report report none = none
with_report report (some e) =
    if e.status_code == 422 then some (record e { body = report_body report }) else some e

abbrev pub or_persist_error : Option String → Option RunError → Option RunError
or_persist_error none e = e
or_persist_error (some text) e = some (run_error 500 text)

abbrev pub is_earlier : {V : Type 0} → TimelineEvent V → TimelineEvent V → Bool
is_earlier e f = ltb e.at_ms f.at_ms

abbrev pub install_faults : {V T : Type 0} → List FaultRule → RunState V T → RunState V T
install_faults faults s = record s {
  scenario = record s.scenario { faults = faults; decision_index = 0 };
}

abbrev pub config_of : {V : Type 0} → ScenarioDocument V → TwinConfig
config_of sc = record { seed = sc.seed; start_time_unix_ms = sc.start_time_unix_ms }

unfoldable pub set_run_metadata :
    {V : Type 0} → ScenarioDocument V → ℕ → TwinKernel V → TwinKernel V
set_run_metadata sc failed k = set_metadata "scenario_assertion_failures" (to_string failed) (
    set_metadata "scenario_assertions" (to_string (length sc.assertions)) (
      set_metadata "scenario_faults" (to_string (length sc.faults))
        (set_metadata "scenario_name" sc.name k)))

abbrev pub store_run : {V T : Type 0} → String → StoredRun V → RunState V T → RunState V T
store_run run_id run s = record s {
  scenario = record s.scenario { runs = insert run_id run s.scenario.runs };
}

abbrev pub count_run : {V T : Type 0} → RunState V T → RunState V T
count_run s = record s {
  scenario = record s.scenario { next_run_id = (s.scenario.next_run_id + 1) % u64_mod };
}

module _ {V T : Type 0} (null : V) (service : TwinService V T) (twin : ScenarioTwin V T)
    (type_field : V → Option String) (hash : ℕ → ℕ → String → String → String → ℕ)
    (snapshot_hash : TwinState V → String)
    (persist : RunArtifact V (ScenarioDocument V) → Option String) where
  unfoldable pub evaluate_assertions : ScenarioDocument V → RunState V T → List AssertionResult
  evaluate_assertions sc s =
      map (λ rule. assertion_of rule.id (twin.evaluate_assertion rule.check s.runtime.service))
        sc.assertions

  abbrev pub judge :
      ScenarioDocument V → Progress → Option (String × RunError) → RunState V T → Findings
  judge sc p none s = asserted p (evaluate_assertions sc s)
  judge sc p (some (text, e)) s = timeline_failed p text e

  unfoldable pub run_events : ScenarioDocument V → RunState V T → Findings × RunState V T
  run_events sc s =
      let (p, t) =
        run_timeline twin type_field hash (sort_by is_earlier sc.timeline)
          (install_faults sc.faults s) in
      (judge sc p p.failure t, t)

  abbrev pub seeded_run :
      ScenarioDocument V
      → Result TwinError (Unit {0}) × TwinRuntime V T
      → RunState V T
      → Findings × RunState V T
  seeded_run sc (ok _, rt) s = run_events sc (record s { runtime = rt })
  seeded_run sc (err e, rt) s = (seed_refused e, record s { runtime = rt })

  unfoldable pub perform_run : ScenarioDocument V → RunState V T → Findings × RunState V T
  perform_run sc s =
      seeded_run sc
        (Runtime.seed service sc.initial_state
          (Runtime.reset null service (config_of sc) s.runtime))
        s

  abbrev pub report_of :
      ScenarioDocument V → String → Option String → Findings → TwinState V → ScenarioRunReport
  report_of sc run_id source f snapshot = record {
    run_id = run_id;
    source_run_id = source;
    scenario_name = sc.name;
    status = f.status;
    seed = sc.seed;
    start_time_unix_ms = sc.start_time_unix_ms;
    events_applied = f.progress.applied;
    timeline_outcomes = f.progress.outcomes;
    fault_hits = f.progress.hits;
    assertions = f.assertions;
    failed_assertions = f.failed;
    final_snapshot_revision = snapshot.revision;
    final_snapshot_hash = snapshot_hash snapshot;
    error = f.error;
  }

  abbrev pub artifact_of :
      ScenarioDocument V
      → String
      → Option String
      → Findings
      → TwinRuntime V T
      → RunArtifact V (ScenarioDocument V)
  artifact_of sc run_id source f rt =
      let snapshot = full_snapshot service rt in
      record {
        report = report_of sc run_id source f snapshot;
        scenario = sc;
        events = rt.kernel.events;
        snapshot = snapshot;
      }

  -- The artifact of the run, what is answered in place of the report, and the state.
  unfoldable pub finish_run :
      ScenarioDocument V
      → String
      → Option String
      → Findings × RunState V T
      → RunArtifact V (ScenarioDocument V) × Option RunError × RunState V T
  finish_run sc run_id source (f, s) =
      let t = with_kernel (set_run_metadata sc f.failed) s in
      let artifact = artifact_of sc run_id source f t.runtime in
      (
        artifact,
        with_report artifact.report (or_persist_error (persist artifact) f.api_error),
        store_run run_id (record { report = artifact.report; scenario = sc }) t,
      )

  unfoldable pub run_scenario :
      ScenarioDocument V
      → Option String
      → RunState V T
      → RunArtifact V (ScenarioDocument V) × Option RunError × RunState V T
  run_scenario sc source s =
      let t = count_run s in
      finish_run sc (run_name t.scenario.next_run_id) source (perform_run sc t)
