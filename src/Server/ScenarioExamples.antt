-- ===== src/Server/ScenarioExamples.antt =====
-- A scenario document with a fault, and the theorems about validation and faults at it.
use agent_sandbox.Drive.Seed.Keeping.{IsCountable}
use agent_sandbox.Server.Requests.{new_state}
use agent_sandbox.Drive.Seed.{SeedFile}
use agent_sandbox.Drive.Seed.Examples.{seed_files, decode_hi, numbers_are_small}
use agent_sandbox.Server.DriveTwin.{drive, control_seed-IsWellFormed}
use agent_sandbox.Drive.Types.{default_service, DriveTwinService}
use agent_sandbox.Server.Control.{control_seed}
use agent_sandbox.Drive.WellFormed.{IsWellFormed}
use agent_sandbox.Server.Tokens.Safe.{has_char, is_safe_token-run_name, is_safe_token_lem}
use agent_sandbox.Server.Tokens.{is_safe_token, run_name}
use agent_sandbox.Server.Faults.Certain.{evaluate_fault-certain, MayPass, IsAbout}
use agent_sandbox.Common.Int.{pos}
use agent_sandbox.Server.Types.{AppState, TwinService}
use agent_sandbox.Server.Faults.{evaluate_fault, fires, deterministic_probability, chance}
use agent_sandbox.Server.Validation.Sound.{IsValid, validate_scenario-IsValid}
use agent_sandbox.Server.Validation.{
  validate_scenario, is_blank, twin_errors, check_ids, check_faults, check_timeline,
}
use agent_sandbox.Server.Scenario.{ScenarioDocument, FaultRule, number, http_error, latency}
use agent_sandbox.Common.{
  [], none, some, ℕ, String, Result, ◌≡◌, List, ◌∷◌, ◌+◌, true, ok, refl, ◌≢◌, all_chars, false,
  TwinError, All, arith, sym, ◌⊎◌, ◌++◌,
}

-- Probability 1, for every actor.
abbrev outage : FaultRule
outage = record {
  id = "outage";
  when = record { endpoint = "create_file"; actor_id = none; probability = number (pos 1) 0 };
  effect = http_error 503 "unavailable";
}

-- Probability 1/2, for one actor.
abbrev flaky : FaultRule
flaky = record {
  id = "flaky";
  when = record {
    endpoint = "create_file";
    actor_id = some "alice";
    probability = number (pos 1) 1;
  };
  effect = latency 10;
}

abbrev demo : ScenarioDocument ℕ
demo = record {
  version = 1;
  name = "demo";
  seed = 7;
  start_time_unix_ms = pos 1000;
  actors = record { id = "alice"; label = "Alice" } ∷ record { id = "bob"; label = "Bob" } ∷ [];
  initial_state = 0;
  timeline = record { at_ms = 5; actor_id = "alice"; action = 1 } ∷ [];
  faults = flaky ∷ outage ∷ [];
  assertions = record { id = "orphans"; check = 2 } ∷ [];
}

abbrev accepting : ScenarioDocument ℕ → Result String (List String × List String)
accepting doc = ok ([], [])

-- A fault for an actor that is not listed is an error.
stranger_found :
    (validate_scenario accepting (record demo {
      faults = record flaky { when = record outage.when { actor_id = some "carol" } } ∷ [];
    })).errors
    ≡ "fault `flaky` references unknown actor `carol`" ∷ []
unfolding validate_scenario is_blank check_ids check_faults check_timeline
stranger_found = refl

demo_valid : (validate_scenario accepting demo).valid ≡ true
unfolding validate_scenario is_blank check_ids check_faults check_timeline
demo_valid = refl

validate_scenario-IsValid_example : IsValid demo × (twin_errors (accepting demo) ≡ [])
validate_scenario-IsValid_example = validate_scenario-IsValid accepting demo demo_valid

abbrev sum_hash : ℕ → ℕ → String → String → String → ℕ
sum_hash seed index endpoint actor_id fault_id = 9000 + seed + index

abbrev faulty : AppState ℕ ℕ FaultRule (Unit {0})
faulty = record {
  runtime = record {
    kernel = record {
      config = record { seed = 7; start_time_unix_ms = pos 0 };
      state = record { revision = 0; metadata = []; service_state = 0 };
      events = [];
      next_event_sequence = 1;
      active_session = none;
    };
    service = 0;
  };
  scenario = record {
    faults = flaky ∷ outage ∷ [];
    decision_index = 0;
    next_run_id = 0;
    runs = [];
  };
  session_store = record { sessions = []; next_session_id = 1 };
}

-- 9008 is past one half, so that the second rule is met.
second_rule : (evaluate_fault sum_hash "create_file" (some "alice") faulty).0 ≡ some outage
unfolding evaluate_fault fires deterministic_probability
second_rule = refl

evaluate_fault-certain_example :
    (((evaluate_fault sum_hash "create_file" (some "alice") faulty).0 ≡ none)
      × All (MayPass sum_hash "create_file" (some "alice")) faulty.scenario.faults)
    ⊎ ((before : List FaultRule) × (hit : FaultRule) × (after : List FaultRule)
        × (faulty.scenario.faults ≡ before ++ hit ∷ after)
        × ((evaluate_fault sum_hash "create_file" (some "alice") faulty).0 ≡ some hit)
        × IsAbout "create_file" (some "alice") hit.when
        × (chance hit.when.probability ≢ none)
        × All (MayPass sum_hash "create_file" (some "alice")) before)
evaluate_fault-certain_example = evaluate_fault-certain sum_hash "create_file" (some "alice") faulty

-- A path out of the directory is refused.
path_refused : is_safe_token "../index" ≡ false
unfolding is_safe_token all_chars
path_refused = refl

is_safe_token_lem_example :
    (has_char 47 "run_000042" ≡ false)
    × (has_char 92 "run_000042" ≡ false)
    × (has_char 46 "run_000042" ≡ false)
    × (has_char 58 "run_000042" ≡ false)
unfolding is_safe_token all_chars
is_safe_token_lem_example = is_safe_token_lem "run_000042" refl

is_safe_token-run_name_example : is_safe_token (run_name 1234567) ≡ true
is_safe_token-run_name_example = is_safe_token-run_name 1234567

-- The Drive twin, with its own state as the JSON of snapshots and the files of the example as those
-- of every seed.
abbrev reading : DriveTwinService → Result TwinError (List SeedFile)
reading v = ok seed_files

abbrev plain_drive : TwinService DriveTwinService DriveTwinService
plain_drive = drive (λ t. t) (λ v. ok v) reading decode_hi

abbrev drive_server : AppState DriveTwinService DriveTwinService (Unit {0}) (Unit {0})
drive_server =
    new_state default_service plain_drive (λ v. true)
      (record { seed = 0; start_time_unix_ms = pos 0 }) 0

read_small : (fs : List SeedFile) → reading default_service ≡ ok fs → All (λ f. IsCountable f.id) fs
read_small fs e = let same : seed_files ≡ fs = ground arith in rw (sym same) numbers_are_small

control_seed-IsWellFormed_example :
    IsWellFormed
      (control_seed default_service plain_drive
        (λ v. true)
        default_service
        drive_server).1.runtime.service
control_seed-IsWellFormed_example =
    control_seed-IsWellFormed (λ t. t) (λ v. ok v) reading decode_hi default_service (λ v. true)
      default_service drive_server refl read_small
