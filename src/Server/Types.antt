-- ===== src/Server/Types.antt =====
-- The interface of a twin (`TwinService` of twins/crates/twin-service/src/lib.rs) and the state that
-- the handlers share. `V` is the type of `serde_json::Value`, `T` that of the twin, `F` that of the
-- fault rules and `R` that of the stored runs.
use agent_sandbox.Common.Int.{ℤ}
use agent_sandbox.Common.BTreeMap.{BTreeMap}
use agent_sandbox.Common.{Op, ℕ, String, List, TwinError, Option, operation, ◌<>◌}
use agent_sandbox.Kernel.{TwinKernel, TwinState, TwinEvent}

-- The methods that the handlers call. The default bodies of `service_snapshot` and
-- `service_restore` are serde's.
pub record TwinService (V T : Type 0) : Type 0 where
  pub default : T
  pub service_snapshot : T → V
  pub service_restore : V → Op TwinError T (Unit {0})
  pub seed_from_scenario : V → Op TwinError T (Unit {0})

pub record TwinRuntime (V T : Type 0) : Type 0 where
  pub kernel : TwinKernel V
  pub service : T

pub data SessionStatus : Type 0 where
  active : SessionStatus
  ended : SessionStatus

pub record SessionInfo (V : Type 0) : Type 0 where
  pub session_id : String
  pub name : Option String
  pub status : SessionStatus
  pub created_at_unix_ms : ℤ
  pub ended_at_unix_ms : Option ℤ
  pub final_event_count : ℕ
  pub final_snapshot : Option (TwinState V)
  pub frozen_events : Option (List TwinEvent)

pub record SessionStore (V : Type 0) : Type 0 where
  pub sessions : BTreeMap (SessionInfo V)
  pub next_session_id : ℕ

pub record ScenarioRuntime (F R : Type 0) : Type 0 where
  pub faults : List F
  pub decision_index : ℕ
  pub next_run_id : ℕ
  pub runs : BTreeMap R

-- `run_store` and `scenarios_dir` are left out: they name files.
pub record AppState (V T F R : Type 0) : Type 0 where
  pub runtime : TwinRuntime V T
  pub scenario : ScenarioRuntime F R
  pub session_store : SessionStore V

-- The JSON of an error, by what it is made of: `{ "error": text }`, or what
-- `format_seed_service_error` and the check for an object in `control_seed` write.
pub data ErrorBody : Type 0 where
  error_text : String → ErrorBody
  seed_failed : String → ErrorBody
  seed_not_object : ErrorBody

pub record ApiError : Type 0 where
  pub status_code : ℕ
  pub body : ErrorBody

abbrev pub Handler : Type 0 → Type 0 → Type 0 → Type 0 → Type 0 → Type 0
Handler V T F R A = Op ApiError (AppState V T F R) A

-- `to_string` of an error, from its `thiserror` attribute.
abbrev pub message : TwinError → String
message (operation m) = "service operation failed: " <> m

-- `map_error`
abbrev pub map_error : TwinError → ApiError
map_error e = record { status_code = 400; body = error_text (message e) }

abbrev pub session_not_found : ApiError
session_not_found = record { status_code = 404; body = error_text "session not found" }
