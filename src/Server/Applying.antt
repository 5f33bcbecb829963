-- ===== src/Server/Applying.antt =====
-- The handlers that run a scenario (twins/crates/twin-server-core/src/lib.rs): of a document, of a
-- scenario file, and of a run again.
pub mod Sessions
pub mod Verified
use agent_sandbox.Kernel.{TwinState}
use agent_sandbox.Common.BTreeMap.{get}
use agent_sandbox.Server.Types.{TwinService}
use agent_sandbox.Server.Scenario.{ScenarioDocument}
use agent_sandbox.Server.Tokens.{is_safe_token}
use agent_sandbox.Server.Validation.{validate_scenario, ScenarioValidationResult}
use agent_sandbox.Server.Runs.{
  RunArtifact, ScenarioRunReport, RunDiffResult, diff_run_artifacts, is_deterministic_match,
}
use agent_sandbox.Server.RunScenario.{RunState, StoredRun, run_scenario}
use agent_sandbox.Server.Play.{ScenarioTwin, RunError, run_error}
use agent_sandbox.Common.{
  none, some, ok, err, ℕ, List, String, Bool, Option, Result, TwinError, Op, ◌>>=◌, ◌>>◌,
  if◌then◌else◌, require, pure,
}

-- What a run asks of code outside: the twin's part, serde, the hasher and the files. `read_scenario`
-- resolves a path, reads the file and decodes it; `read_run` reads the file of a run, and
-- `read_again` does after the run that is made in between.
pub record Outside (V T : Type 0) : Type 0 where
  pub twin : ScenarioTwin V T
  pub type_field : V → Option String
  pub hash : ℕ → ℕ → String → String → String → ℕ
  pub snapshot_hash : TwinState V → String
  pub validate : ScenarioDocument V → Result String (List String × List String)
  pub persist : RunArtifact V (ScenarioDocument V) → Option String
  pub read_scenario : String → Result RunError (ScenarioDocument V)
  pub read_run : String → Result String (RunArtifact V (ScenarioDocument V))
  pub read_again : String → Result String (RunArtifact V (ScenarioDocument V))

-- An error of the run, or the validation that the document did not pass, with the status 422.
pub data ApplyError : Type 0 where
  run_refused : RunError → ApplyError
  invalid : ScenarioValidationResult → ApplyError

abbrev pub Apply : Type 0 → Type 0 → Type 0 → Type 0
Apply V T A = Op ApplyError (RunState V T) A

abbrev pub given_or : {V T A : Type 0} → RunError → Result String A → Apply V T A
given_or e (ok a) s = (ok a, s)
given_or e (err text) s = (err (run_refused e), s)

abbrev pub run_not_found : RunError
run_not_found = run_error 404 "scenario run not found"

-- `RunStore::load_run`
abbrev pub load_run : {A : Type 0} → (String → Result String A) → String → Result String A
load_run read run_id = if is_safe_token run_id then read run_id else err "invalid run id"

-- `load_run_artifact`
unfoldable pub load_run_artifact :
    {V T A : Type 0} → (String → Result String A) → String → Apply V T A
load_run_artifact read run_id = do
  require (is_safe_token run_id) (run_refused (run_error 400 "invalid run id"))
  given_or run_not_found (load_run read run_id)

abbrev pub answer_of :
    {V T : Type 0}
    → RunArtifact V (ScenarioDocument V) × Option RunError × RunState V T
    → Result ApplyError ScenarioRunReport × RunState V T
answer_of (artifact, none, s) = (ok artifact.report, s)
answer_of (artifact, some e, s) = (err (run_refused e), s)

module _ {V T : Type 0} (null : V) (service : TwinService V T) (out : Outside V T) where
  unfoldable pub run_and_report : ScenarioDocument V → Option String → Apply V T ScenarioRunReport
  run_and_report sc source s = answer_of (
      run_scenario null service out.twin out.type_field out.hash out.snapshot_hash out.persist sc
        source s)

  unfoldable pub control_apply_scenario : ScenarioDocument V → Apply V T ScenarioRunReport
  control_apply_scenario sc = do
    require (validate_scenario out.validate sc).valid (invalid (validate_scenario out.validate sc))
    run_and_report sc none

  abbrev pub decoded_scenario :
      Result RunError (ScenarioDocument V) → Apply V T (ScenarioDocument V)
  decoded_scenario (ok sc) s = (ok sc, s)
  decoded_scenario (err e) s = (err (run_refused e), s)

  unfoldable pub control_apply_scenario_file : String → Apply V T ScenarioRunReport
  control_apply_scenario_file path = do
    sc ← decoded_scenario (out.read_scenario path)
    control_apply_scenario sc

  -- The run's scenario from memory, or else from its file.
  abbrev pub scenario_of_run : String → Option (StoredRun V) → Apply V T (ScenarioDocument V)
  scenario_of_run run_id (some run) s = (ok run.scenario, s)
  scenario_of_run run_id none s =
      (given_or run_not_found (load_run out.read_run run_id)
          >>= (λ artifact. pure artifact.scenario))
        s

  unfoldable pub control_replay_scenario : String → Apply V T ScenarioRunReport
  control_replay_scenario run_id = do
    sc ← λ s. scenario_of_run run_id (get run_id s.scenario.runs) s
    run_and_report sc (some run_id)

  -- Whether the replay matches, and the comparison.
  unfoldable pub control_verify_replay : String → Apply V T (Bool × RunDiffResult)
  control_verify_replay run_id = do
    baseline ← load_run_artifact out.read_run run_id
    report ← run_and_report baseline.scenario (some run_id)
    replay ← load_run_artifact out.read_again report.run_id
    pure (
      is_deterministic_match (diff_run_artifacts baseline replay),
      diff_run_artifacts baseline replay,
    )
