-- ===== src/Server/Applying/Verified.antt =====
-- The verification of a replay (`control_verify_replay`).
use agent_sandbox.Server.Tokens.Safe.{is_safe_token-run_name}
use agent_sandbox.Server.Play.{RunError}
use agent_sandbox.Server.Runs.{RunArtifact, diff_run_artifacts}
use agent_sandbox.Server.Tokens.{is_safe_token}
use agent_sandbox.Server.RunScenario.{RunState, run_scenario, finish_run, count_run}
use agent_sandbox.Common.{Option, String, ◌≡◌, true, ok, some, none, Result, arith, refl}
use agent_sandbox.Server.Scenario.{ScenarioDocument}
use agent_sandbox.Server.Applying.{
  Outside, control_verify_replay, load_run_artifact, run_and_report, answer_of,
}
use agent_sandbox.Server.Types.{TwinService}
use agent_sandbox.Server.RunScenario.Repeated.{run_scenario-is_deterministic_match}

load_run_artifact-ok :
    {V T A : Type 0} (read : String → Result String A) (run_id : String) (a : A) (s : RunState V T)
    → is_safe_token run_id ≡ true
    → read run_id ≡ ok a
    → load_run_artifact {V = V} {T = T} read run_id s ≡ (ok a, s)
unfolding load_run_artifact
load_run_artifact-ok read run_id a s safe found = rw (safe, found) refl

answer_of-ok :
    {V T : Type 0} (x : RunArtifact V (ScenarioDocument V) × Option RunError × RunState V T)
    → x.1 ≡ none
    → answer_of x ≡ (ok x.0.report, x.2)
answer_of-ok (artifact, none, s) fine = refl
answer_of-ok (artifact, some e, s) fine = absurd (ground arith)

module _ {V T : Type 0} (null : V) (service : TwinService V T) (out : Outside V T)
    (sc : ScenarioDocument V) where
  -- The run of the scenario from a state.
  abbrev pub ran :
      Option String
      → RunState V T
      → RunArtifact V (ScenarioDocument V) × Option RunError × RunState V T
  ran source s =
      run_scenario null service out.twin out.type_field out.hash out.snapshot_hash out.persist sc
        source s

  run_id-is_safe_token :
      (source : Option String) (s : RunState V T)
      → is_safe_token (ran source s).0.report.run_id ≡ true
  unfolding run_scenario finish_run
  run_id-is_safe_token source s = is_safe_token-run_name (count_run s).scenario.next_run_id

  run_and_report-ok :
      (source : Option String) (s : RunState V T)
      → (ran source s).1 ≡ none
      → run_and_report null service out sc source s ≡ (ok (ran source s).0.report, (ran source s).2)
  unfolding run_and_report
  run_and_report-ok source s fine = answer_of-ok (ran source s) fine

  -- If the file of a run has what that run, made from any state, has written, and the replay from the
  -- state of the server meets no error and is read back from its file, then the verification answers
  -- that the replay matches, and the state is the one after the replay.
  pub control_verify_replay-ok :
      (run_id : String) (source : Option String) (s t : RunState V T)
      → is_safe_token run_id ≡ true
      → out.read_run run_id ≡ ok (ran source s).0
      → (ran (some run_id) t).1 ≡ none
      → out.read_again (ran (some run_id) t).0.report.run_id ≡ ok (ran (some run_id) t).0
      → control_verify_replay null service out run_id t ≡ (
        ok (true, diff_run_artifacts (ran source s).0 (ran (some run_id) t).0),
        (ran (some run_id) t).2,
      )
  unfolding control_verify_replay run_and_report diff_run_artifacts run_scenario finish_run
  control_verify_replay-ok run_id source s t safe written fine reread =
      let again = ran (some run_id) t in
      let matches =
        run_scenario-is_deterministic_match null service out.twin out.type_field out.hash
          out.snapshot_hash out.persist sc source (some run_id) s t in
      rw (load_run_artifact-ok out.read_run run_id (ran source s).0 t safe written) (
        rw (run_and_report-ok (some run_id) t fine) (
          rw
            (load_run_artifact-ok out.read_again again.0.report.run_id again.0 again.2
              (run_id-is_safe_token (some run_id) t) reread)
            (rw matches refl)))
