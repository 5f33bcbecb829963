-- ===== src/Server/Examples.antt =====
-- A twin that holds one number, runs of a server for it, and the theorems at concrete states.
use agent_sandbox.Server.Faults.{evaluate_fault}
use agent_sandbox.Common.Sorting.{sort_by}
use agent_sandbox.Server.Validation.{
  validate_scenario, is_blank, check_ids, check_faults, check_timeline,
}
use agent_sandbox.Server.Play.{run_error, run_timeline, run_event, with_fault, conclude}
use agent_sandbox.Server.Creating.Kept.{HasEnded, control_create_session_lem}
use agent_sandbox.Server.Applying.{Outside, control_apply_scenario, run_and_report}
use agent_sandbox.Server.Scenario.{ScenarioDocument}
use agent_sandbox.Server.RunScenario.{
  RunState, run_scenario, perform_run, run_events, finish_run, evaluate_assertions,
}
use agent_sandbox.Server.Runs.Replay.{IsReplay, is_deterministic_match-IsReplay}
use agent_sandbox.Server.Runs.{
  diff_run_artifacts, ScenarioRunReport, is_deterministic_match, RunArtifact,
}
use agent_sandbox.Server.Requests.Frozen.{serve_all-frozen}
use agent_sandbox.Server.Creating.{IsIdle, IsStarted}
use agent_sandbox.Common.BTreeMap.{values, get, insert, update}
use agent_sandbox.Server.Runtime.{full_snapshot}
use agent_sandbox.Common.Int.{pos}
use agent_sandbox.Server.Requests.Invariant.{new_state-IsConsistent}
use agent_sandbox.Server.Sessions.{active_session, new_session, events_of, create, is_active}
use agent_sandbox.Server.Consistent.{IsConsistent, active_at}
use agent_sandbox.Server.Control.{control_events}
use agent_sandbox.Server.Race.{create_sessions_interleaved, create_sessions_interleaved_lem}
use agent_sandbox.Common.{
  ℕ, List, ok, none, some, ◌≡◌, true, Op, refl, ◌∷◌, String, TwinError, ◌+◌, arith, [], ◌≢◌,
  if◌then◌else◌, err, ◌==◌, ◌⊎◌, operation, length, padded_6, ◌↔◌, false,
}
use agent_sandbox.Server.Requests.{Request, new_state, serve_all, serve}
use agent_sandbox.Server.Types.{TwinService, SessionInfo, ApiError, map_error}
use agent_sandbox.Server.Sessions.Handlers.{
  control_session_events, control_create_session, control_end_session, replace_session,
  start_session, control_session_snapshot,
}
use agent_sandbox.Kernel.{TwinConfig, default_context}
use agent_sandbox.Server.Reading.{session_query, control_session_events-query}

-- The number of the snapshot is the service's; 0 is refused as a seed.
abbrev counter_seed : ℕ → Op TwinError ℕ (Unit {0})
counter_seed n s = if n == 0 then (err (operation "zero"), s) else (ok tt, n)

abbrev counter : TwinService ℕ ℕ
counter = record {
  default = 0;
  service_snapshot = λ s. s;
  service_restore = λ v s. (ok tt, v);
  seed_from_scenario = counter_seed;
}

-- Nothing is accepted or found in files; a check is a number that the twin must hold.
abbrev outside : Outside ℕ ℕ
outside = record {
  twin = record {
    evaluate_assertion = λ v s. ok (record { id = "sum"; passed = v == s; message = "" });
    execute_timeline_action = λ v actor s. (ok "/count", s + v);
  };
  type_field = λ v. some "count";
  hash = λ a b c d e. 1;
  snapshot_hash = λ s. "hash";
  validate = λ sc. ok ([], []);
  persist = λ a. none;
  read_scenario = λ path. err (run_error 400 "failed to read scenario file");
  read_run = λ id. err "failed to read run artifact";
  read_again = λ id. err "failed to read run artifact";
}

abbrev config : TwinConfig
config = record { seed = 7; start_time_unix_ms = pos 1000 }

abbrev CounterServer : Type 0
CounterServer = RunState ℕ ℕ

abbrev fresh : CounterServer
fresh = new_state 0 counter (λ v. true) config 0

abbrev count_up : Request ℕ ℕ
count_up = Request.act (λ n. n + 1) "/count" (some "alice") "ok" "count" none default_context

-- A session with one event.
abbrev requests : List (Request ℕ ℕ)
requests = Request.create_session (some 5) (some "first") (pos 1) ∷ count_up ∷ []

abbrev busy : CounterServer
busy = serve_all 0 counter (λ v. true) outside requests fresh

-- A scenario with one action.
abbrev count_scenario : ScenarioDocument ℕ
count_scenario = record {
  version = 1;
  name = "count";
  seed = 7;
  start_time_unix_ms = pos 0;
  actors = record { id = "alice"; label = "A" } ∷ [];
  initial_state = 1;
  timeline = record { at_ms = 1; actor_id = "alice"; action = 2 } ∷ [];
  faults = [];
  assertions = record { id = "sum"; check = 3 } ∷ [];
}

applied : (control_apply_scenario 0 counter outside count_scenario fresh).1.runtime.service ≡ 3
unfolding control_apply_scenario validate_scenario is_blank check_ids check_faults check_timeline
    run_and_report run_scenario perform_run run_events run_timeline run_event sort_by with_fault
    conclude evaluate_fault finish_run evaluate_assertions new_state
    agent_sandbox.Server.Runtime.seed agent_sandbox.Server.Runtime.reset agent_sandbox.Kernel.reset
applied = refl

abbrev afterwards : List (Request ℕ ℕ)
afterwards =
    Request.reset_to config
    ∷ Request.apply_scenario count_scenario
    ∷ Request.replay_scenario "run_000001"
    ∷ Request.create_session none none (pos 3)
    ∷ Request.restore_to (record { revision = 0; metadata = []; service_state = 9 })
    ∷ []

one_event : (control_end_session 0 counter "sess_000001" (pos 2) busy).0 ≡ ok ("sess_000001", 1)
unfolding new_state serve_all serve control_create_session replace_session start_session create
    control_end_session get insert update padded_6 active_session values
    agent_sandbox.Server.Runtime.seed agent_sandbox.Kernel.record_event_with_context
    agent_sandbox.Kernel.set_active_session agent_sandbox.Server.Runtime.reset
    agent_sandbox.Kernel.reset
one_event = refl

-- A refused seed ends the session before and starts none.
refused_seed :
    (control_create_session 0 counter (some 0) none (pos 2) busy).0
    ≡ err (map_error (operation "zero"))
unfolding new_state serve_all serve control_create_session replace_session start_session create get
    insert update padded_6 active_session values agent_sandbox.Server.Runtime.seed
    agent_sandbox.Kernel.record_event_with_context agent_sandbox.Kernel.set_active_session
    agent_sandbox.Server.Runtime.reset agent_sandbox.Kernel.reset
refused_seed = refl

busy-IsConsistent : IsConsistent busy
busy-IsConsistent =
    new_state-IsConsistent 0 counter (λ v. true) outside config 0 requests (omega arith)

new_state-IsConsistent_example : IsConsistent busy
new_state-IsConsistent_example =
    new_state-IsConsistent 0 counter (λ v. true) outside config 0 requests (omega arith)

next_two : busy.session_store.next_session_id ≡ 2
unfolding new_state serve_all serve control_create_session replace_session start_session create
    active_session values agent_sandbox.Server.Runtime.seed
    agent_sandbox.Kernel.record_event_with_context agent_sandbox.Kernel.set_active_session
    agent_sandbox.Server.Runtime.reset agent_sandbox.Kernel.reset
next_two = refl

serve_all-frozen_example :
    let t =
      serve_all 0 counter
        (λ v. true)
        outside
        afterwards
        (control_end_session 0 counter "sess_000001" (pos 2) busy).1 in
    (control_session_events 0 counter "sess_000001" t
      ≡ (ok (events_of "sess_000001" busy.runtime.kernel), t))
    × (control_session_snapshot 0 counter "sess_000001" t
        ≡ (ok (full_snapshot counter busy.runtime), t))
    × (1 ≡ length (events_of "sess_000001" busy.runtime.kernel))
serve_all-frozen_example =
    serve_all-frozen 0 counter (λ v. true) outside "sess_000001" (pos 2) 1 afterwards busy
      busy-IsConsistent (omega (arith, next_two)) one_event

control_create_session_lem_example :
    let out = control_create_session 0 counter (some 0) none (pos 2) busy in
    (((e : ApiError) × (out.0 ≡ err e) × IsIdle out.1)
      ⊎ ((id : String) × (out.0 ≡ ok id) × IsStarted id out.1))
    × ((k : String) (info : SessionInfo ℕ)
        → get k busy.session_store.sessions ≡ some info
        → is_active info ≡ true
        → (new : SessionInfo ℕ) × (get k out.1.session_store.sessions ≡ some new)
          × HasEnded counter (pos 2) k busy info new)
    × ((k : String) (info : SessionInfo ℕ)
        → get k busy.session_store.sessions ≡ some info
        → is_active info ≡ false
        → get k out.1.session_store.sessions ≡ some info)
control_create_session_lem_example =
    control_create_session_lem 0 counter (pos 2) (some 0) none busy busy-IsConsistent
      (omega (arith, next_two))

quiet_at_first : active_session fresh.session_store ≡ none
unfolding new_state active_session values
quiet_at_first = refl

first_number : fresh.session_store.next_session_id ≡ 1
unfolding new_state
first_number = refl

create_sessions_interleaved_lem_example :
    let out = create_sessions_interleaved 0 counter none (pos 1) (some "b") (pos 2) fresh in
    (id1 : String) × (id2 : String) × (out.0 ≡ ok (id1, id2))
    × (id1 ≢ id2)
    × ((active_at (get id1 out.1.session_store.sessions) ≡ true)
        × (active_at (get id2 out.1.session_store.sessions) ≡ true))
create_sessions_interleaved_lem_example =
    create_sessions_interleaved_lem 0 counter none (pos 1) (some "b") (pos 2) fresh quiet_at_first
      (omega (arith, first_number))

abbrev first_session : SessionInfo ℕ
first_session = new_session "sess_000001" (some "first") (pos 1)

still_there : get "sess_000001" busy.session_store.sessions ≡ some first_session
unfolding new_state serve_all serve control_create_session replace_session start_session create get
    insert padded_6 active_session values agent_sandbox.Server.Runtime.seed
    agent_sandbox.Kernel.record_event_with_context agent_sandbox.Kernel.set_active_session
    agent_sandbox.Server.Runtime.reset agent_sandbox.Kernel.reset
still_there = refl

control_session_events-query_example :
    control_session_events 0 counter "sess_000001" busy
    ≡ control_events 0 counter (session_query "sess_000001") busy
control_session_events-query_example =
    control_session_events-query 0 counter "sess_000001" first_session busy still_there refl

abbrev report : ScenarioRunReport
report = record {
  run_id = "run_000001";
  source_run_id = none;
  scenario_name = "demo";
  status = "ok";
  seed = 7;
  start_time_unix_ms = pos 1000;
  events_applied = 0;
  timeline_outcomes = [];
  fault_hits = [];
  assertions = record { id = "a"; passed = true; message = "passed" } ∷ [];
  failed_assertions = 0;
  final_snapshot_revision = 4;
  final_snapshot_hash = "h";
  error = none;
}

abbrev run_of : ScenarioRunReport → RunArtifact ℕ (Unit {0})
run_of r = record {
  report = r;
  scenario = tt;
  events = [];
  snapshot = record { revision = 4; metadata = []; service_state = 9 };
}

abbrev failed : ScenarioRunReport
failed = record report { assertions = record { id = "a"; passed = false; message = "failed" } ∷ [] }

-- A verdict that differs is found.
changed_verdict : (diff_run_artifacts (run_of report) (run_of failed)).assertions_changed ≡ "a" ∷ []
unfolding diff_run_artifacts
changed_verdict = refl

is_deterministic_match-IsReplay_example :
    (is_deterministic_match (diff_run_artifacts (run_of report) (run_of report)) ≡ true)
    ↔ IsReplay (run_of report) (run_of report)
is_deterministic_match-IsReplay_example =
    is_deterministic_match-IsReplay (run_of report) (run_of report)
