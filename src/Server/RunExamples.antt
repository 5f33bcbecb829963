-- ===== src/Server/RunExamples.antt =====
-- A run of a scenario for a twin that adds up numbers.
use agent_sandbox.Server.Applying.Verified.{control_verify_replay-ok}
use agent_sandbox.Server.Validation.{
  validate_scenario, is_blank, check_ids, check_faults, check_timeline,
}
use agent_sandbox.Server.Applying.{Outside, control_verify_replay}
use agent_sandbox.Server.Tokens.{run_name, is_safe_token}
use agent_sandbox.Server.Runtime.{full_snapshot}
use agent_sandbox.Kernel.{set_metadata, record_event}
use agent_sandbox.Server.Faults.{evaluate_fault, deterministic_probability, fires}
use agent_sandbox.Common.Sorting.{sort_by}
use agent_sandbox.Server.RunScenario.Repeated.{run_scenario-is_deterministic_match}
use agent_sandbox.Common.Int.{pos}
use agent_sandbox.Server.RunScenario.{
  run_scenario, RunState, perform_run, run_events, finish_run, evaluate_assertions,
  set_run_metadata,
}
use agent_sandbox.Server.Runs.{is_deterministic_match, RunArtifact, diff_run_artifacts}
use agent_sandbox.Server.Types.{TwinService}
use agent_sandbox.Server.Play.{
  ScenarioTwin, run_timeline, RunError, run_event, with_fault, with_effect, conclude,
}
use agent_sandbox.Server.Scenario.{FaultRule, ScenarioDocument, infinite, latency}
use agent_sandbox.Kernel
use agent_sandbox.Server.Runtime
use agent_sandbox.Common.{
  [], ◌∷◌, none, some, ok, err, ℕ, Result, ◌==◌, ◌≡◌, Option, TwinError, String, true, operation,
  suc, ◌+◌, zero, length, refl, padded_6, map, all_chars, false,
}

-- The number of the snapshot is the service's; 0 is refused as an action.
abbrev add_up : ℕ → ℕ → Result TwinError String × ℕ
add_up zero s = (err (operation "nothing to add"), s)
add_up (suc n) s = (ok "/add", s + suc n)

abbrev adder : TwinService ℕ ℕ
adder = record {
  default = 0;
  service_snapshot = λ s. s;
  service_restore = λ v s. (ok tt, v);
  seed_from_scenario = λ v s. (ok tt, v);
}

abbrev adding : ScenarioTwin ℕ ℕ
adding = record {
  evaluate_assertion = λ v s. ok (record { id = "sum"; passed = v == s; message = "" });
  execute_timeline_action = λ v actor s. add_up v s;
}

abbrev slow : FaultRule
slow = record {
  id = "slow";
  when = record { endpoint = "add"; actor_id = none; probability = infinite };
  effect = latency 5;
}

abbrev sums : ScenarioDocument ℕ
sums = record {
  version = 1;
  name = "sums";
  seed = 7;
  start_time_unix_ms = pos 0;
  actors = [];
  initial_state = 10;
  timeline =
      record { at_ms = 2; actor_id = "a"; action = 3 }
      ∷ record { at_ms = 1; actor_id = "b"; action = 4 }
      ∷ [];
  faults = slow ∷ [];
  assertions = record { id = "total"; check = 17 } ∷ [];
}

abbrev idle : RunState ℕ ℕ
idle = record {
  runtime = record {
    kernel = Kernel.new 0 (record { seed = 1; start_time_unix_ms = pos 9 });
    service = 99;
  };
  scenario = record { faults = []; decision_index = 3; next_run_id = 0; runs = [] };
  session_store = record { sessions = []; next_session_id = 1 };
}

abbrev run_sums :
    ScenarioDocument ℕ
    → RunState ℕ ℕ
    → RunArtifact ℕ (ScenarioDocument ℕ) × Option RunError × RunState ℕ ℕ
run_sums sc s =
    run_scenario 0 adder adding (λ v. some "add") (λ a b c d e. 1) (λ s. "hash") (λ a. none) sc none
      s

run_once :
    let report = (run_sums sums idle).0.report in
    (report.run_id ≡ "run_000001")
    × (report.status ≡ "ok")
    × (map (λ o. o.actor_id) report.timeline_outcomes ≡ "b" ∷ "a" ∷ [])
    × (length report.fault_hits ≡ 2)
    × (report.events_applied ≡ 2)
    × ((run_sums sums idle).0.snapshot.service_state ≡ 17)
unfolding run_scenario perform_run run_events run_timeline run_event sort_by with_fault with_effect
    conclude evaluate_fault deterministic_probability fires finish_run evaluate_assertions
    set_run_metadata set_metadata full_snapshot Kernel.snapshot Runtime.seed Runtime.reset
    Kernel.reset run_name padded_6 record_event Kernel.new
run_once = (refl, refl, refl, refl, refl, refl)

run_stops :
    let report =
      (run_sums
        (record sums {
          timeline = record { at_ms = 1; actor_id = "a"; action = 0 } ∷ sums.timeline;
        })
        idle).0.report in
    (report.status ≡ "error") × (length report.timeline_outcomes ≡ 1) × (report.events_applied ≡ 0)
unfolding run_scenario perform_run run_events run_timeline run_event sort_by with_fault with_effect
    conclude evaluate_fault deterministic_probability fires finish_run Runtime.seed Runtime.reset
    Kernel.reset
run_stops = (refl, refl, refl)

run_scenario-is_deterministic_match_example :
    is_deterministic_match (
      diff_run_artifacts
        (run_scenario 0 adder adding
          (λ v. some "add")
          (λ a b c d e. 1)
          (λ s. "hash")
          (λ a. none)
          sums
          none
          idle).0
        (run_scenario 0 adder adding
          (λ v. some "add")
          (λ a b c d e. 1)
          (λ s. "hash")
          (λ a. none)
          sums
          none
          (run_sums sums idle).2).0)
    ≡ true
run_scenario-is_deterministic_match_example =
    run_scenario-is_deterministic_match 0 adder adding (λ v. some "add") (λ a b c d e. 1)
      (λ s. "hash") (λ a. none) sums none none idle (run_sums sums idle).2

abbrev after_run : RunState ℕ ℕ
after_run = (run_sums sums idle).2

abbrev replayed : RunArtifact ℕ (ScenarioDocument ℕ) × Option RunError × RunState ℕ ℕ
replayed =
    run_scenario 0 adder adding (λ v. some "add") (λ a b c d e. 1) (λ s. "hash") (λ a. none) sums
      (some "run_000001") after_run

-- The files have the run and, after it, the replay.
abbrev files : Outside ℕ ℕ
files = record {
  twin = adding;
  type_field = λ v. some "add";
  hash = λ a b c d e. 1;
  snapshot_hash = λ s. "hash";
  validate = λ sc. ok ([], []);
  persist = λ a. none;
  read_scenario = λ path. ok sums;
  read_run = λ id. ok (run_sums sums idle).0;
  read_again = λ id. ok replayed.0;
}

replayed_fine : replayed.1 ≡ none
unfolding run_scenario perform_run run_events run_timeline run_event sort_by with_fault with_effect
    conclude evaluate_fault deterministic_probability fires finish_run evaluate_assertions
    set_run_metadata set_metadata full_snapshot Kernel.snapshot Runtime.seed Runtime.reset
    Kernel.reset run_name padded_6 record_event Kernel.new
replayed_fine = refl

control_verify_replay-ok_example :
    control_verify_replay 0 adder files "run_000001" after_run
    ≡ (ok (true, diff_run_artifacts (run_sums sums idle).0 replayed.0), replayed.2)
unfolding is_safe_token all_chars
control_verify_replay-ok_example =
    control_verify_replay-ok 0 adder files sums "run_000001" none idle after_run refl refl
      replayed_fine refl

-- A document whose timeline names actors that it does not list is not valid.
unlisted_actors : (validate_scenario files.validate sums).valid ≡ false
unfolding validate_scenario is_blank check_ids check_faults check_timeline
unlisted_actors = refl
