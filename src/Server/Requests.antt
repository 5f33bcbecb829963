-- ===== src/Server/Requests.antt =====
-- Sequences of control requests, and the new state of a server.
pub mod Invariant
pub mod Frozen
use agent_sandbox.Server.Applying.{
  Outside, control_apply_scenario, control_apply_scenario_file, control_replay_scenario,
  control_verify_replay,
}
use agent_sandbox.Server.RunScenario.{RunState}
use agent_sandbox.Server.Scenario.{ScenarioDocument}
use agent_sandbox.Server.Control.{control_reset, control_seed, control_restore}
use agent_sandbox.Server.Sessions.Handlers.{control_create_session, control_end_session}
use agent_sandbox.Kernel.{TwinConfig, TwinState, TwinEventContext}
use agent_sandbox.Common.Int.{ℤ}
use agent_sandbox.Server.Types.{TwinService, AppState}
use agent_sandbox.Common.{Option, String, Bool, List, ℕ, ◌∷◌, []}
use agent_sandbox.Kernel
use agent_sandbox.Server.Runtime

-- The requests of `control_routes` that change the state; `act` is a request to the twin
-- itself: it changes the service and records an event.
pub data Request (V T : Type 0) : Type 0 where
  create_session : Option V → Option String → ℤ → Request V T
  end_session : String → ℤ → Request V T
  reset_to : TwinConfig → Request V T
  seed_with : V → Request V T
  restore_to : TwinState V → Request V T
  apply_scenario : ScenarioDocument V → Request V T
  apply_scenario_file replay_scenario verify_replay : String → Request V T
  act :
      (T → T)
      → String
      → Option String
      → String
      → String
      → Option String
      → TwinEventContext
      → Request V T

module _ {V T F R : Type 0} (null : V) (twin : TwinService V T) (is_object : V → Bool) where
  -- `TwinKernel::new`, `SessionStore::new` and `ScenarioRuntime::new` together.
  unfoldable pub new_state : TwinConfig → ℕ → AppState V T F R
  unfolding Kernel.new
  new_state config next_run_id = record {
    runtime = record { kernel = Kernel.new null config; service = twin.default };
    scenario = record { faults = []; decision_index = 0; next_run_id = next_run_id; runs = [] };
    session_store = record { sessions = []; next_session_id = 1 };
  }

module _ {V T : Type 0} (null : V) (twin : TwinService V T) (is_object : V → Bool)
    (out : Outside V T) where
  unfoldable pub serve : Request V T → RunState V T → RunState V T
  serve (create_session seed name now) s = (control_create_session null twin seed name now s).1
  serve (end_session id now) s = (control_end_session null twin id now s).1
  serve (reset_to config) s = (control_reset null twin config s).1
  serve (seed_with value) s = (control_seed null twin is_object value s).1
  serve (restore_to snapshot) s = (control_restore null twin snapshot s).1
  serve (apply_scenario sc) s = (control_apply_scenario null twin out sc s).1
  serve (apply_scenario_file path) s = (control_apply_scenario_file null twin out path s).1
  serve (replay_scenario run_id) s = (control_replay_scenario null twin out run_id s).1
  serve (verify_replay run_id) s = (control_verify_replay null twin out run_id s).1
  serve (act f endpoint actor_id outcome detail fault_id context) s = record s {
    runtime = record {
      kernel =
          Kernel.record_event_with_context endpoint actor_id outcome detail fault_id context
            s.runtime.kernel;
      service = f s.runtime.service;
    };
  }

  unfoldable pub serve_all : List (Request V T) → RunState V T → RunState V T
  serve_all [] s = s
  serve_all (r ∷ rs) s = serve_all rs (serve r s)
